-- ===== src/Numrabw/PostOffice/Health/Reports.antt =====
-- What is reported of an outage, and of its end.
use numcore_messaging_librar.Common.{
  ◌≡◌, refl, Bool, true, false, List, [], ◌∷◌, ◌++◌, Bytes, codes, arith, Bool-cases, inl, inr,
}
use numcore_messaging_librar.Outcome.{Outcome, done, throws, aborts, undefined, out_of_fuel, ◌>>=◌}
use numcore_messaging_librar.Slaim.ErrorLog.{ErrorLog, set_error}
use numcore_messaging_librar.Numrabw.PostOffice.Health.{Health, report, recovered, failed}

-- Attempts that fail one after another.
unfoldable pub fail_all : Bytes → List Bytes → Health → Outcome Health
fail_all name [] h = done h
fail_all name (what ∷ whats) h = failed name what h >>= fail_all name whats

-- In an outage that is already reported, further failures change nothing.
fail_silently :
    (name : Bytes) (whats : List Bytes) (h : Health)
    → h.error ≡ true
    → h.thread_ok ≡ false
    → fail_all name whats h ≡ done h
unfolding fail_all failed
fail_silently name [] h e ok = refl
fail_silently name (what ∷ whats) h e ok = rw (e, ok) (fail_silently name whats _ refl refl)

reported :
    (name : Bytes) (whats : List Bytes) (h : Health) (o : Outcome (Bool × ErrorLog))
    → h.error ≡ true
    → h.thread_ok ≡ false
    → ((o >>= λ r. done (record h { error_log = r.1 })) >>= fail_all name whats)
      ≡ (o >>= λ r. done (record h { error_log = r.1 }))
reported name whats h (done r) e ok = fail_silently name whats (record h { error_log = r.1 }) e ok
reported name whats h (throws x) e ok = refl
reported name whats h aborts e ok = refl
reported name whats h undefined e ok = refl
reported name whats h out_of_fuel e ok = refl

-- However often the attempts of an outage fail, with whatever texts, the flags and the log are those
-- that the first failure leaves: an outage is reported once, by its first failure.
pub fail_all_once :
    (name what : Bytes) (whats : List Bytes) (h : Health)
    → fail_all name (what ∷ whats) h ≡ failed name what h
unfolding fail_all failed report
fail_all_once name what whats h = elim (Bool-cases h.error) [
  | inl e ↦ rw e (fail_silently name whats _ refl refl)
  | inr e ↦ rw e (
      reported name whats (record h { thread_ok = false; error = true })
        (set_error h.error_log (name ++ (codes ": " ++ what))) refl refl)
]

error-failed : (name what : Bytes) (h h' : Health) → failed name what h ≡ done h' → h'.error ≡ true
unfolding failed report
error-failed name what h h' e = ground (arith, e)

-- When a session opens after an outage, its end is reported, and a second session then reports
-- nothing.
pub recovered-failed :
    (name what : Bytes) (h h1 h2 : Health)
    → failed name what h ≡ done h1
    → recovered name h1 ≡ done h2
    → (recovered name h1
        ≡ report (name ++ codes " now ok") (record h1 { thread_ok = true; error = false }))
      × (recovered name h2 ≡ done h2)
unfolding recovered report
recovered-failed name what h h1 h2 e e' =
    let was = error-failed name what h h1 e in (rw was, ground (arith, e', was))
