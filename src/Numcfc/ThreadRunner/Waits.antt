-- ===== src/Numcfc/ThreadRunner/Waits.antt =====
-- Waiting for a notice.
use numcore_messaging_librar.Common.{
  ℕ, ◌≡◌, ◌≢◌, ◌≤◌, ◌<◌, refl, true, false, List, [], ◌∷◌, ◌++◌, arith, ◌⊎◌,
}
use numcore_messaging_librar.Outcome.{done, out_of_fuel}
use numcore_messaging_librar.Numcfc.ThreadRunner.{Impl, notify, Wake, wait, wait_at_most}

-- A notice is not lost: given before the wait, it ends both forms of it at once, even if the time to
-- wait is over, and is used up.
pub wait-notify :
    (i : Impl) (max_wait elapsed : ℕ) (ws : List Wake)
    → (wait (notify i) ws ≡ done (record i { notified = false }))
      × (wait_at_most max_wait (notify i) elapsed ws ≡ done (true, record i { notified = false }))
unfolding wait wait_at_most notify
wait-notify i max_wait elapsed [] = (refl, refl)
wait-notify i max_wait elapsed (w ∷ ws) = (refl, refl)

-- A wait with a limit has ended by the first wake at which its time is over, whatever the wakes
-- before it brought and whoever waits besides.
pub wait_at_most_ends :
    (ws : List Wake) (w : Wake) (i : Impl) (max_wait elapsed : ℕ)
    → max_wait ≤ w.elapsed
    → wait_at_most max_wait i elapsed (ws ++ (w ∷ [])) ≢ out_of_fuel
unfolding wait_at_most
wait_at_most_ends [] w i max_wait elapsed h = ground (arith, h)
wait_at_most_ends (v ∷ ws) w i max_wait elapsed h =
    ground (arith, wait_at_most_ends ws w (record i { notified = v.given }) max_wait v.elapsed h)

-- Wakes without a notice, in time.
abbrev pub IsSpurious : ℕ → List Wake → Type 0
IsSpurious max_wait [] = Unit {0}
IsSpurious max_wait (w ∷ ws) = ((w.given ≡ false) × (w.elapsed < max_wait)) × IsSpurious max_wait ws

-- On a runner without a notice, and with time left, the wait goes on through wakes in time that
-- bring no notice. The first wake that brings one, or at which the time is over, ends it; the result
-- says which, and the notice is used up.
pub wait_at_most-spurious :
    (ws : List Wake) (w : Wake) (i : Impl) (max_wait elapsed : ℕ)
    → i.notified ≡ false
    → elapsed < max_wait
    → IsSpurious max_wait ws
    → (w.given ≡ true) ⊎ (max_wait ≤ w.elapsed)
    → wait_at_most max_wait i elapsed (ws ++ (w ∷ []))
      ≡ done (w.given, record i { notified = false })
unfolding wait_at_most
wait_at_most-spurious [] w i max_wait elapsed n lt s h = ground (arith, n, lt, h)
wait_at_most-spurious (v ∷ ws) w i max_wait elapsed n lt s h = ground (
  arith,
  n,
  lt,
  wait_at_most-spurious ws w (record i { notified = v.given }) max_wait v.elapsed s.0.0 s.0.1 s.1 h,
)
