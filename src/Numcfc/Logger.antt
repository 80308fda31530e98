-- ===== src/Numcfc/Logger.antt =====
-- numcfc/Logger.cpp. The file system removes and renames what is there; whether a file can be opened
-- is a parameter, as is the local time in its extended ISO form.
pub mod Tracking
pub mod Rotation
mod Tests
use numcore_messaging_librar.Common.{
  ℕ, ◌+◌, ◌%◌, ◌^◌, Bool, true, false, ◌||◌, not, [], ◌∷◌, ◌++◌, Option, none, some, Bytes, codes,
  ltb, ◌==◌, if◌then◌else◌, length,
}
use numcore_messaging_librar.Decimal.{decimal}
use numcore_messaging_librar.OrderedMap.{OrderedMap, assign, erase, find}

pub record Logger : Type 0 where
  pub echo : Bool
  pub write_timestamp : Bool
  pub write_endline : Bool
  pub current_size : ℕ
  pub max_size : ℕ
  pub filename : Bytes
  pub filename_previous : Bytes

-- The texts of the files, by their names, and what has been written to `std::cout`.
pub record World : Type 0 where
  pub files : OrderedMap Bytes
  pub shown : Bytes

abbrev pub or_default : Option Bytes → Bytes
or_default none = codes "log"
or_default (some name) = name

abbrev pub size_of : Option Bytes → ℕ
size_of none = 0
size_of (some text) = length text

-- `max_size` is `(unsigned int) (maxSizeMB * 1024 * 1024)`.
unfoldable pub new_logger : Option Bytes → ℕ → World → Logger
unfolding find
new_logger log_name max_size w = record {
  echo = false;
  write_timestamp = true;
  write_endline = true;
  current_size = size_of (find (or_default log_name ++ codes ".txt") w.files);
  max_size = max_size;
  filename = or_default log_name ++ codes ".txt";
  filename_previous = or_default log_name ++ codes "_old.txt";
}

unfoldable pub set_echo : Bool → Logger → Logger
set_echo echo l = record l { echo = echo }

abbrev pub or_empty : Option Bytes → Bytes
or_empty none = []
or_empty (some text) = text

abbrev is_given : Option Bytes → Bool
is_given none = false
is_given (some text) = true

-- The place in the source, if a file or a line is given.
unfoldable pub location : Option Bytes → ℕ → Bytes
unfolding decimal
location file line =
    if is_given file || not (line == 0)
    then codes " ["
      ++ (or_empty file ++ ((if line == 0 then [] else codes ", " ++ decimal line) ++ codes "]"))
    else []

-- `now` is the time that the line is stamped with.
unfoldable pub line_to_log : Logger → Bytes → Bytes → Option Bytes → ℕ → Bytes
unfolding location
line_to_log l now str file line =
    (if l.write_timestamp then now ++ codes ": " else [])
    ++ (str ++ (location file line ++ (if l.write_endline then b'\n' ∷ [] else [])))

abbrev pub renamed : Bytes → Bytes → OrderedMap Bytes → Option Bytes → OrderedMap Bytes
renamed from to files none = files
renamed from to files (some text) = assign to text (erase from files)

-- `remove` and `rename`
unfoldable pub roll_files : Logger → OrderedMap Bytes → OrderedMap Bytes
unfolding erase assign find
roll_files l files =
    let others = erase l.filename_previous files in
    renamed l.filename l.filename_previous others (find l.filename others)

unfoldable pub rolling_text : Logger → ℕ → Bytes
unfolding decimal
rolling_text l added =
    codes "[New log length would be "
    ++ (decimal l.current_size
        ++ (codes " + "
            ++ (decimal added
                ++ (codes " when max size is "
                    ++ (decimal l.max_size ++ (codes ": rolling...]" ++ (b'\n' ∷ [])))))))

abbrev pub show : Bool → Bytes → World → World
show echo text w = record w { shown = if echo then w.shown ++ text else w.shown }

-- Where the line would make the file too long.
unfoldable pub roll : Logger → ℕ → World → Logger × World
unfolding roll_files rolling_text
roll l added w = (
  record l { current_size = 0 },
  show l.echo (rolling_text l added) (record w { files = roll_files l w.files }),
)

unfoldable pub roll_if_full : Logger → ℕ → World → Logger × World
unfolding roll
roll_if_full l added w =
    if ltb l.max_size ((l.current_size + added) % 2 ^ 64) then roll l added w else (l, w)

-- The line is counted also when the file could not be opened.
unfoldable pub append_line : (Bytes → Bool) → Bytes → Logger × World → Bool × (Logger × World)
unfolding assign find
append_line opens line (l, w) = (
  opens l.filename,
  (
    record l { current_size = (l.current_size + length line) % 2 ^ 64 },
    if opens l.filename
        then record w {
          files = assign l.filename (or_empty (find l.filename w.files) ++ line) w.files;
        }
        else w,
  ),
)

module _ (opens : Bytes → Bool) where
  -- From the line on.
  unfoldable pub log_line : Bytes → Logger → World → Bool × (Logger × World)
  unfolding roll_if_full append_line
  log_line line l w =
      let (l', w') = roll_if_full l (length line) w in
      append_line opens line (l', show l'.echo line w')

  unfoldable pub log : Bytes → Bytes → Option Bytes → ℕ → Logger → World → Bool × (Logger × World)
  unfolding line_to_log log_line
  log now str file line l w = log_line (line_to_log l now str file line) l w

  -- The static functions, which make a logger of their own, of one megabyte.
  unfoldable pub log_and_echo :
      Bytes → Bytes → Option Bytes → Option Bytes → ℕ → World → Bool × World
  unfolding new_logger set_echo log
  log_and_echo now str log_name file line w =
      let r = log now str file line (set_echo true (new_logger log_name 1048576 w)) w in
      (r.0, r.1.1)

  unfoldable pub log_no_echo :
      Bytes → Bytes → Option Bytes → Option Bytes → ℕ → World → Bool × World
  unfolding new_logger set_echo log
  log_no_echo now str log_name file line w =
      let r = log now str file line (set_echo false (new_logger log_name 1048576 w)) w in
      (r.0, r.1.1)
