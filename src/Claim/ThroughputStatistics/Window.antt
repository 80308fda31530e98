-- ===== src/Claim/ThroughputStatistics/Window.antt =====
-- What is kept are the messages of the window, all of them and no others.
use numcore_messaging_librar.Common.{
  ℕ, ◌-◌, ◌≤◌, ◌≡◌, inl, inr, refl, sym, ap, false, List, [], ◌∷◌, ◌++◌, leb, if◌then◌else◌, length,
  arith, Bool-cases,
}
use numcore_messaging_librar.Claim.ThroughputStatistics.{
  Throughput, is_old, maintain, add_throughput, total_bytes, get_throughput,
}

-- All times lie between `first` and `now`, in their order.
abbrev pub IsOrdered : ℕ → ℕ → List Throughput → Type 0
IsOrdered first now [] = first ≤ now
IsOrdered first now (t ∷ ts) = (first ≤ t.time) × IsOrdered t.time now ts

-- The messages of less than five million microseconds ago, whatever their order.
unfoldable pub recent : ℕ → List Throughput → List Throughput
recent now [] = []
recent now (t ∷ ts) =
    let rest = recent now ts in if leb 5000000 (now - t.time) then rest else t ∷ rest

none_old :
    (first now : ℕ) (ts : List Throughput)
    → IsOrdered first now ts
    → leb 5000000 (now - first) ≡ false
    → recent now ts ≡ ts
unfolding recent
none_old first now [] h young = refl
none_old first now (t ∷ ts) h young =
    let young' : leb 5000000 (now - t.time) ≡ false = ground (arith, h.0, young) in
    rw young' (ap (◌∷◌ t) (none_old t.time now ts h.1 young'))

maintain-recent :
    (first now : ℕ) (ts : List Throughput)
    → IsOrdered first now ts
    → maintain now ts ≡ recent now ts
unfolding maintain recent is_old
maintain-recent first now [] h = refl
maintain-recent first now (t ∷ ts) h = elim (Bool-cases (leb 5000000 (now - t.time))) [
  | inl old ↦ rw old (maintain-recent t.time now ts h.1)
  | inr young ↦ rw young (ap (◌∷◌ t) (sym (none_old t.time now ts h.1 young)))
]

-- On statistics in the order of their times, none later than now, the throughput is that of exactly
-- the messages of less than five million microseconds ago, their number and their bytes, and just
-- these are kept.
pub get_throughput-recent :
    (first now : ℕ) (ts : List Throughput)
    → IsOrdered first now ts
    → get_throughput now ts ≡ ((length (recent now ts), total_bytes (recent now ts)), recent now ts)
unfolding get_throughput
get_throughput-recent first now ts h = rw (maintain-recent first now ts h)

widen_start :
    (first later now : ℕ) (ts : List Throughput)
    → first ≤ later
    → IsOrdered later now ts
    → IsOrdered first now ts
widen_start first later now [] le h = omega arith
widen_start first later now (t ∷ ts) le h = (omega (arith, h.0), h.1)

maintain-IsOrdered :
    (first now : ℕ) (ts : List Throughput)
    → IsOrdered first now ts
    → IsOrdered first now (maintain now ts)
unfolding maintain
maintain-IsOrdered first now [] h = h
maintain-IsOrdered first now (t ∷ ts) h = elim (Bool-cases (is_old now t)) [
  | inl old ↦
      rw old
        (widen_start first t.time now (maintain now ts) h.0 (maintain-IsOrdered t.time now ts h.1))
  | inr young ↦ rw young h
]

append_now-IsOrdered :
    (first now bytes : ℕ) (ts : List Throughput)
    → IsOrdered first now ts
    → IsOrdered first now (ts ++ (record { time = now; bytes = bytes } ∷ []))
append_now-IsOrdered first now bytes [] h = (h, omega arith)
append_now-IsOrdered first now bytes (t ∷ ts) h =
    (h.0, append_now-IsOrdered t.time now bytes ts h.1)

-- Adding a throughput keeps the order.
pub add_throughput-IsOrdered :
    (first now bytes : ℕ) (ts : List Throughput)
    → IsOrdered first now ts
    → IsOrdered first now (add_throughput now bytes ts)
unfolding add_throughput
add_throughput-IsOrdered first now bytes ts h =
    append_now-IsOrdered first now bytes (maintain now ts) (maintain-IsOrdered first now ts h)
