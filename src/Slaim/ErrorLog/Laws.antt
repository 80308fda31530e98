-- ===== src/Slaim/ErrorLog/Laws.antt =====
-- The bound of the error log, the order of its errors, and the repeats that it does not suppress.
use numcore_messaging_librar.Common.{
  ℕ, suc, ◌+◌, ◌≤◌, ◌<◌, ◌≡◌, ◌≢◌, inl, inr, refl, ap, ◌∙◌, Bool, true, false, List, [], ◌∷◌, ◌++◌,
  append_assoc, arith, Bytes, codes, bytes_eq, bytes_eq_of_ne, bytes_eq_iff, leb→le, leb, lt→leb,
  length, length-append, Bool-cases,
}
use numcore_messaging_librar.Outcome.{Outcome, done, ◌>>=◌}
use numcore_messaging_librar.Slaim.ErrorLog.{
  ErrorLog, new_error_log, drop_last, overflow, set_error, get_error, front_error, Call, sets, gets,
  clears, step, run,
}

-- Room for one error at least, no more errors than that, and no last error, as none is ever stored.
pub record IsValid (log : ErrorLog) : Type 0 where
  pub some_room : 0 < log.max_items
  pub bounded : length log.errors ≤ log.max_items
  pub no_last : log.last_error ≡ []

new_error_log-IsValid : (max_items : ℕ) → 0 < max_items → IsValid (new_error_log max_items)
unfolding new_error_log
new_error_log-IsValid max_items h = record { some_room = h; bounded = omega arith; no_last = refl }

length-drop_last : (e : Bytes) (es : List Bytes) → length (drop_last (e ∷ es)) ≡ length es
unfolding drop_last
length-drop_last e [] = refl
length-drop_last e (f ∷ es) = ap suc (length-drop_last f es)

drop_last-concat : (es : List Bytes) (e : Bytes) → drop_last (es ++ (e ∷ [])) ≡ es
unfolding drop_last
drop_last-concat [] e = refl
drop_last-concat (f ∷ []) e = refl
drop_last-concat (f ∷ g ∷ es) e = ap (◌∷◌ f) (drop_last-concat (g ∷ es) e)

-- What `set_error` does to a valid log, on each branch.
pub data Sets (log : ErrorLog) (e : Bytes) : Outcome (Bool × ErrorLog) → Type 0 where
  ignores : e ≡ [] → Sets log e (done (false, log))
  appends :
      e ≢ []
      → length log.errors < log.max_items
      → Sets log e (done (true, record log { errors = log.errors ++ (e ∷ []) }))
  marks :
      (kept : List Bytes) (newest : Bytes)
      → e ≢ []
      → length log.errors ≡ log.max_items
      → log.errors ≡ kept ++ (newest ∷ [])
      → Sets log e (done (false, record log { errors = kept ++ (codes "..." ∷ []) }))

overflow-concat :
    (log : ErrorLog) (kept : List Bytes) (newest : Bytes)
    → overflow log (kept ++ (newest ∷ []))
      ≡ done (false, record log { errors = kept ++ (codes "..." ∷ []) })
unfolding overflow
overflow-concat log [] newest = refl
overflow-concat log (f ∷ kept) newest = rw (drop_last-concat (f ∷ kept) newest)

split_last :
    (e : Bytes) (es : List Bytes)
    → (kept : List Bytes) × (newest : Bytes) × (e ∷ es ≡ kept ++ (newest ∷ []))
split_last e [] = ([], e, refl)
split_last e (f ∷ es) = let (kept, newest, p) = split_last f es in (e ∷ kept, newest, ap (◌∷◌ e) p)

overflow-Sets :
    (log : ErrorLog) (e : Bytes) (es : List Bytes)
    → log.errors ≡ es
    → e ≢ []
    → length log.errors ≡ log.max_items
    → 0 < log.max_items
    → Sets log e (overflow log es)
overflow-Sets log e [] p ne full h = absurd (omega (arith, ap length p))
overflow-Sets log e (f ∷ es) p ne full h =
    let (kept, newest, q) = split_last f es in
    rw (q, overflow-concat log kept newest) (marks kept newest ne full (p ∙ q))

-- On a valid log `set_error` ignores the empty error, appends any other while there is room, and
-- replaces the newest error by "..." when there is none; it is never undefined.
pub set_error-Sets : (log : ErrorLog) (e : Bytes) → IsValid log → Sets log e (set_error log e)
unfolding set_error
set_error-Sets log e v = elim (Bool-cases (bytes_eq e [])) [
  | inl same ↦ rw same (ignores ((bytes_eq_iff e []).0 same))
  | inr other ↦
      let ne : e ≢ [] = λ p. cc ((bytes_eq_iff e []).1 p) in
      rw (other, bytes_eq_of_ne e log.last_error (λ p. ne (p ∙ v.no_last)))
        (elim (Bool-cases (leb log.max_items (length log.errors))) [
          | inl full ↦ rw full (
              overflow-Sets log e log.errors refl ne
                (omega (arith, leb→le log.max_items (length log.errors) full, v.bounded))
                v.some_room)
          | inr room ↦ rw room (appends ne (ground arith))
        ])
]

Sets-IsValid :
    {log : ErrorLog} {e : Bytes} {r : Outcome (Bool × ErrorLog)}
    → Sets log e r
    → IsValid log
    → (b : Bool) × (log' : ErrorLog) × (r ≡ done (b, log')) × IsValid log'
Sets-IsValid {log} (ignores p) v = (false, log, refl, v)
Sets-IsValid {log} {e} (appends ne room) v = (
  true,
  _,
  refl,
  record {
    some_room = v.some_room;
    bounded = omega (arith, length-append {0} log.errors (e ∷ []));
    no_last = v.no_last;
  },
)
Sets-IsValid {log} (marks kept newest ne full p) v = (
  false,
  _,
  refl,
  record {
    some_room = v.some_room;
    bounded = omega (
      arith,
      ap length p,
      length-append {0} kept (newest ∷ []),
      length-append {0} kept (codes "..." ∷ []),
    );
    no_last = v.no_last;
  },
)

get_error-IsValid :
    (log : ErrorLog) (es : List Bytes)
    → log.errors ≡ es
    → IsValid log
    → IsValid (front_error log es).1
unfolding front_error
get_error-IsValid log [] p v = v
get_error-IsValid log (e ∷ es) p v = record {
  some_room = v.some_room;
  bounded = omega (arith, ap length p, v.bounded);
  no_last = v.no_last;
}

pub set_error-IsValid :
    (log : ErrorLog) (e : Bytes)
    → IsValid log
    → (b : Bool) × (log' : ErrorLog) × (set_error log e ≡ done (b, log')) × IsValid log'
set_error-IsValid log e v = Sets-IsValid (set_error-Sets log e v) v

step-IsValid :
    (log : ErrorLog) (c : Call)
    → IsValid log
    → (log' : ErrorLog) × (step log c ≡ done log') × IsValid log'
unfolding step get_error
step-IsValid log (sets e) v =
    let (b, log', p, v') = set_error-IsValid log e v in (log', ap (λ r. r >>= λ q. done q.1) p, v')
step-IsValid log gets v = (_, refl, get_error-IsValid log log.errors refl v)
step-IsValid log clears v =
    (_, refl, record { some_room = v.some_room; bounded = v.bounded; no_last = refl })

-- From a valid log any sequence of calls is defined and leaves a valid log: never more errors than
-- the limit.
pub run-IsValid :
    (cs : List Call) (log : ErrorLog)
    → IsValid log
    → (log' : ErrorLog) × (run log cs ≡ done log') × IsValid log'
unfolding run
run-IsValid [] log v = (log, refl, v)
run-IsValid (c ∷ cs) log v =
    let (mid, p, v') = step-IsValid log c v in
    let (log', q, v'') = run-IsValid cs mid v' in (log', ap (λ r. r >>= λ l. run l cs) p ∙ q, v'')

set_error_with_room :
    (log : ErrorLog) (e : Bytes)
    → log.last_error ≡ []
    → e ≢ []
    → length log.errors < log.max_items
    → set_error log e ≡ done (true, record log { errors = log.errors ++ (e ∷ []) })
unfolding set_error
set_error_with_room log e last ne room = rw (
  bytes_eq_of_ne e [] ne,
  bytes_eq_of_ne e log.last_error (λ p. ne (p ∙ last)),
  lt→leb log.max_items (length log.errors) room,
)

-- On a valid log with room for two more errors, setting the same error twice stores it twice: the
-- repeat is not suppressed, as the last error is never stored.
pub set_error_repeats :
    (log : ErrorLog) (e : Bytes)
    → IsValid log
    → e ≢ []
    → length log.errors + 2 ≤ log.max_items
    → run log (sets e ∷ sets e ∷ []) ≡ done (record log { errors = log.errors ++ (e ∷ e ∷ []) })
unfolding run step
set_error_repeats log e v ne room =
    rw
      (
        set_error_with_room log e v.no_last ne (omega arith),
        set_error_with_room (record log { errors = log.errors ++ (e ∷ []) }) e v.no_last ne
            (omega (arith, length-append {0} log.errors (e ∷ []))),
      )
      (rw append_assoc)

Sets-done :
    {log : ErrorLog} {e : Bytes} {o : Outcome (Bool × ErrorLog)}
    → Sets log e o
    → (r : Bool × ErrorLog) × (o ≡ done r)
Sets-done (ignores empty) = (_, refl)
Sets-done (appends some_error room) = (_, refl)
Sets-done (marks kept newest some_error full split) = (_, refl)

-- On a valid log `set_error` is defined.
pub set_error-done :
    (log : ErrorLog) (e : Bytes) → IsValid log → (r : Bool × ErrorLog) × (set_error log e ≡ done r)
set_error-done log e v = Sets-done (set_error-Sets log e v)
