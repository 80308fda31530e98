-- ===== src/Numcfc/Logger/Tests.antt =====
-- Runs of the logger and of the identifiers, and their theorems at concrete inputs.
use numcore_messaging_librar.Common.{
  ◌≡◌, refl, Bool, true, List, [], ◌∷◌, ◌++◌, some, Bytes, codes, arith, bytes_eq,
}
use numcore_messaging_librar.OrderedMap.{compare_keys}
use numcore_messaging_librar.Numcfc.Logger.{Logger, World, set_echo, new_logger, log_line, log}
use numcore_messaging_librar.Numcfc.Logger.Tracking.{IsTracked, Keeps, text_at}
use numcore_messaging_librar.Numcfc.Logger.Rotation.{log_all, concat, new_logger-log_all}
use numcore_messaging_librar.Numcfc.IdGenerator.{ip_v4, no_address, get_ip_addresses}

abbrev opens_all : Bytes → Bool
opens_all name = true

abbrev one_old_line : World
one_old_line = record { files = (codes "x.txt", codes "abc") ∷ []; shown = [] }

abbrev two_lines : List Bytes
two_lines = codes "defgh" ∷ codes "ij" ∷ []

abbrev first_logger : Logger
first_logger = new_logger (some (codes "x")) 7 one_old_line

-- The first line starts a new file, which the second fits in.
rolls_once :
    (log_all opens_all two_lines first_logger one_old_line).1.files
    ≡ (codes "x.txt", codes "defghij") ∷ (codes "x_old.txt", codes "abc") ∷ []
unfolding log_all new_logger log_line compare_keys
rolls_once = refl

new_logger-log_all_example :
    let r = log_all opens_all two_lines first_logger one_old_line in
    IsTracked r.0 r.1.files
    × Keeps r.0 r.1.files (
        (text_at first_logger.filename_previous one_old_line.files
          ++ text_at first_logger.filename one_old_line.files)
        ++ concat two_lines)
unfolding new_logger compare_keys
new_logger-log_all_example =
    new_logger-log_all opens_all (some (codes "x")) 7 two_lines one_old_line (tt, tt) refl
      (ground arith) (ground arith) (ground arith) (ground arith, (ground arith, tt))

-- A line and the place that it comes from, which go to the screen as well.
echoed :
    (log opens_all
      (codes "now")
      (codes "hello")
      (some (codes "a.cpp"))
      7
      (set_echo true first_logger)
      one_old_line).1.1.shown
    ≡ codes "[New log length would be 3 + 22 when max size is 7: rolling...]"
      ++ (b'\n' ∷ (codes "now: hello [a.cpp, 7]" ++ (b'\n' ∷ [])))
unfolding log new_logger compare_keys set_echo
echoed = refl

-- The loopback address is left out.
without_loopback :
    get_ip_addresses (ip_v4 (codes "127.0.0.1") ∷ no_address ∷ ip_v4 (codes "10.0.0.5") ∷ [])
    ≡ codes "10.0.0.5" ∷ []
unfolding get_ip_addresses bytes_eq
without_loopback = refl
