-- ===== src/Slaim/ErrorLog.antt =====
-- messaging/slaim/errorlog.h: the errors not yet fetched, oldest first.
pub mod Laws
use numcore_messaging_librar.Common.{
  ℕ, Bool, true, false, not, List, [], ◌∷◌, ◌++◌, Bytes, codes, bytes_eq, leb, if◌then◌else◌,
  length,
}
use numcore_messaging_librar.Outcome.{Outcome, done, undefined, ◌>>=◌}

pub record ErrorLog : Type 0 where
  pub max_items : ℕ
  pub errors : List Bytes
  pub last_error : Bytes

unfoldable pub new_error_log : ℕ → ErrorLog
new_error_log max_items = record { max_items = max_items; errors = []; last_error = [] }

-- `pop_back` of a list; it is undefined on the empty one.
unfoldable pub drop_last : List Bytes → List Bytes
drop_last [] = []
drop_last (e ∷ []) = []
drop_last (e ∷ f ∷ es) = e ∷ drop_last (f ∷ es)

-- The oldest errors are kept, and the newest place says that some are missing.
unfoldable pub overflow : ErrorLog → List Bytes → Outcome (Bool × ErrorLog)
unfolding drop_last
overflow log [] = undefined
overflow log (e ∷ es) =
    done (false, record log { errors = drop_last (e ∷ es) ++ (codes "..." ∷ []) })

unfoldable pub set_error : ErrorLog → Bytes → Outcome (Bool × ErrorLog)
unfolding overflow
set_error log str_error =
    if bytes_eq str_error []
    then done (false, log)
    else if bytes_eq str_error log.last_error
    then done (false, log)
    else if leb log.max_items (length log.errors)
    then overflow log log.errors
    else done (true, record log { errors = log.errors ++ (str_error ∷ []) })

unfoldable pub front_error : ErrorLog → List Bytes → Bytes × ErrorLog
front_error log [] = ([], log)
front_error log (e ∷ es) = (e, record log { errors = es })

unfoldable pub get_error : ErrorLog → Bytes × ErrorLog
unfolding front_error
get_error log = front_error log log.errors

unfoldable pub has_error : ErrorLog → Bool
has_error log = not (leb (length log.errors) 0)

unfoldable pub clear_last_error : ErrorLog → ErrorLog
clear_last_error log = record log { last_error = [] }

pub data Call : Type 0 where
  sets : Bytes → Call
  gets : Call
  clears : Call

unfoldable pub step : ErrorLog → Call → Outcome ErrorLog
unfolding get_error clear_last_error
step log (sets e) = set_error log e >>= λ r. done r.1
step log gets = done (get_error log).1
step log clears = done (clear_last_error log)

unfoldable pub run : ErrorLog → List Call → Outcome ErrorLog
unfolding step
run log [] = done log
run log (c ∷ cs) = step log c >>= λ log'. run log' cs
