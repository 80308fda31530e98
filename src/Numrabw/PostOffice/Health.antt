-- ===== src/Numrabw/PostOffice/Health.antt =====
-- How both threads report what becomes of their connection: `receiverOk` or `senderOk`, the local
-- variable `error`, and the error log.
pub mod Reports
use numcore_messaging_librar.Common.{Bool, true, false, ◌++◌, Bytes, codes, if◌then◌else◌}
use numcore_messaging_librar.Outcome.{Outcome, done, ◌>>=◌}
use numcore_messaging_librar.Slaim.ErrorLog.{ErrorLog, set_error}

pub record Health : Type 0 where
  pub thread_ok : Bool
  pub error : Bool
  pub error_log : ErrorLog

unfoldable pub report : Bytes → Health → Outcome Health
unfolding set_error
report text h = set_error h.error_log text >>= λ r. done (record h { error_log = r.1 })

-- `name` is "Receiver" or "Sender". A session is open.
unfoldable pub recovered : Bytes → Health → Outcome Health
unfolding report
recovered name h =
    if h.error
    then report (name ++ codes " now ok") (record h { thread_ok = true; error = false })
    else done (record h { thread_ok = true })

-- `catch (std::exception& e)`
unfoldable pub failed : Bytes → Bytes → Health → Outcome Health
unfolding report
failed name what h =
    if h.error
    then done (record h { thread_ok = false })
    else report (name ++ (codes ": " ++ what)) (record h { thread_ok = false; error = true })
