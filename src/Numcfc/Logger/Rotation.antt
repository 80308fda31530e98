-- ===== src/Numcfc/Logger/Rotation.antt =====
-- What the two files hold of all that has been logged.
use numcore_messaging_librar.Common.{
  ℕ, ◌+◌, ◌%◌, ◌^◌, ◌≤◌, ◌<◌, ◌≡◌, ◌≢◌, inl, inr, refl, ap, Bool, true, false, List, [], ◌∷◌, ◌++◌,
  append_assoc, append-nil, Option, none, some, Bytes, codes, ltb, length, length-append, arith,
  Bool-cases, Option-cases, All,
}
use numcore_messaging_librar.OrderedMap.{OrderedMap, find}
use numcore_messaging_librar.OrderedMap.Laws.{IsSorted}
use numcore_messaging_librar.Numcfc.Logger.{
  Logger, World, or_default, size_of, new_logger, or_empty, roll_files, roll, roll_if_full,
  append_line, log_line, show, rolling_text,
}
use numcore_messaging_librar.Numcfc.Logger.Tracking.{
  text_at, IsTracked, Keeps, longer, rolled, started, sum_small, longer-IsTracked, longer-Keeps,
  roll_files-rolled, rolled-none, started-IsTracked, started-Keeps,
}

-- What a call leaves.
pub record Logged (l : Logger) (history : Bytes) (result : Bool × (Logger × World)) : Type 0 where
  pub succeeds : result.0 ≡ true
  pub same_name : result.1.0.filename ≡ l.filename
  pub same_limit : result.1.0.max_size ≡ l.max_size
  pub tracked : IsTracked result.1.0 result.1.1.files
  pub keeps : Keeps result.1.0 result.1.1.files history

module _ (opens : Bytes → Bool) (l : Logger) (w : World) (line : Bytes)
    (ok : opens l.filename ≡ true) where
  log_line-longer :
      ltb l.max_size ((l.current_size + length line) % 2 ^ 64) ≡ false
      → log_line opens line l w ≡ (
        true,
        (
          record l { current_size = (l.current_size + length line) % 2 ^ 64 },
          record (show l.echo line w) { files = longer l w.files line },
        ),
      )
  unfolding log_line roll_if_full append_line
  log_line-longer below = rw (below, ok) refl

  log_line-started :
      (text : Bytes)
      → ltb l.max_size ((l.current_size + length line) % 2 ^ 64) ≡ true
      → roll_files l w.files ≡ rolled l w.files text
      → find l.filename (rolled l w.files text) ≡ none
      → log_line opens line l w ≡ (
        true,
        (
          record l { current_size = (0 + length line) % 2 ^ 64 },
          record (show l.echo line (show l.echo (rolling_text l (length line)) w)) {
            files = started l w.files line text;
          },
        ),
      )
  unfolding log_line roll_if_full roll append_line
  log_line-started text over rolls gone = rw (over, ok, rolls, gone) refl

some_text :
    (l : Logger) (files : OrderedMap Bytes)
    → 0 < length (text_at l.filename files)
    → (text : Bytes) × (find l.filename files ≡ some text)
some_text l files h = elim (Option-cases (find l.filename files)) [
  | inl missing ↦ absurd (omega (arith, h, ap (λ o. length (or_empty o)) missing))
  | inr (text, e) ↦ (text, e)
]

Keeps-resize :
    (l : Logger) (n : ℕ) (files : OrderedMap Bytes) (history : Bytes)
    → Keeps l files history
    → Keeps (record l { current_size = n }) files history
Keeps-resize l n files history k = record { gone = k.gone; ends = k.ends; much = k.much }

module _ (opens : Bytes → Bool) (l : Logger) (w : World) (line history : Bytes)
    (ok : opens l.filename ≡ true) (t : IsTracked l w.files) (k : Keeps l w.files history)
    (fits : length line ≤ l.max_size) where
  over-Logged :
      l.max_size < l.current_size + length line
      → ltb l.max_size ((l.current_size + length line) % 2 ^ 64) ≡ true
      → Logged l (history ++ line) (log_line opens line l w)
  over-Logged more over =
      let (text, there) = some_text l w.files (omega (arith, more, t.size, fits)) in
      let same : (0 + length line) % 2 ^ 64 ≡ length line = omega (arith, fits, t.in_int) in
      rw
        (
          log_line-started opens l w line ok text over
              (roll_files-rolled l w.files line history t fits text there)
              (rolled-none l w.files line history t fits text there),
          same,
        )
        (record {
          succeeds = refl;
          same_name = refl;
          same_limit = refl;
          tracked = started-IsTracked l w.files line history t fits text there;
          keeps =
              Keeps-resize l (length line) _ _
                (started-Keeps l w.files line history t fits text there more k);
        })

  below-Logged :
      l.current_size + length line ≤ l.max_size
      → ltb l.max_size ((l.current_size + length line) % 2 ^ 64) ≡ false
      → Logged l (history ++ line) (log_line opens line l w)
  below-Logged less below =
      rw (log_line-longer opens l w line ok below, sum_small l w.files line history t fits)
        (record {
          succeeds = refl;
          same_name = refl;
          same_limit = refl;
          tracked = longer-IsTracked l w.files line history t fits _ refl less;
          keeps = Keeps-resize l _ _ _ (longer-Keeps l w.files line history t fits k);
        })

  -- A logger whose two files fit logs a line that fits, into a file that can be opened: the call
  -- returns true, both files fit again, and they hold the end of all that has been logged. That is
  -- the whole of it, or more than one file may hold.
  pub log_line-Logged : Logged l (history ++ line) (log_line opens line l w)
  log_line-Logged =
      let exact = sum_small l w.files line history t fits in
      elim (Bool-cases (ltb l.max_size ((l.current_size + length line) % 2 ^ 64))) [
        | inl over ↦ over-Logged (ground (arith, exact, over)) over
        | inr below ↦ below-Logged (ground (arith, exact, below)) below
      ]

-- One line after another, whatever the calls return.
unfoldable pub log_all : (Bytes → Bool) → List Bytes → Logger → World → Logger × World
log_all opens [] l w = (l, w)
log_all opens (line ∷ lines) l w =
    let r = log_line opens line l w in log_all opens lines r.1.0 r.1.1

abbrev pub concat : List Bytes → Bytes
concat [] = []
concat (line ∷ lines) = line ++ concat lines

log_all-Keeps :
    (opens : Bytes → Bool) (lines : List Bytes) (l : Logger) (w : World) (history : Bytes)
    → opens l.filename ≡ true
    → IsTracked l w.files
    → Keeps l w.files history
    → All (λ line. length line ≤ l.max_size) lines
    → let r = log_all opens lines l w in
      IsTracked r.0 r.1.files × Keeps r.0 r.1.files (history ++ concat lines)
unfolding log_all
log_all-Keeps opens [] l w history ok t k fit = (t, rw (append-nil history) k)
log_all-Keeps opens (line ∷ lines) l w history ok t k fit =
    let g = log_line-Logged opens l w line history ok t k fit.0 in
    rw (← append_assoc history line (concat lines)) (
      log_all-Keeps opens lines _ _ (history ++ line) (rw g.same_name ok) g.tracked g.keeps
        (rw g.same_limit fit.1))

differing_ends : (base : Bytes) → (base ++ codes ".txt") ≢ (base ++ codes "_old.txt")
differing_ends base e =
    omega
      (arith, ap length e, length-append base (codes ".txt"), length-append base (codes "_old.txt"))

size_of-or_empty : (o : Option Bytes) → size_of o ≡ length (or_empty o)
size_of-or_empty none = refl
size_of-or_empty (some text) = refl

-- A new logger with a limit below 2^32 bytes, over files of which its two fit, logs lines that fit,
-- into a file that can be opened. However many they are, its two files fit, and they hold the end of what they held at first
-- with the lines behind it: the whole of it, or more than one file may hold.
pub new_logger-log_all :
    (opens : Bytes → Bool) (name : Option Bytes) (max_size : ℕ) (lines : List Bytes) (w : World)
    → let l = new_logger name max_size w in
      IsSorted w.files
      → opens l.filename ≡ true
      → length (text_at l.filename w.files) ≤ max_size
      → length (text_at l.filename_previous w.files) ≤ max_size
      → max_size < 2 ^ 32
      → All (λ line. length line ≤ max_size) lines
      → let r = log_all opens lines l w in
        IsTracked r.0 r.1.files
        × Keeps r.0 r.1.files
            ((text_at l.filename_previous w.files ++ text_at l.filename w.files) ++ concat lines)
unfolding new_logger
new_logger-log_all opens name max_size lines w sorted ok fits previous_fits in_int fit =
    log_all-Keeps opens lines (new_logger name max_size w) w _ ok
      (record {
        sorted = sorted;
        two_names = differing_ends (or_default name);
        size = size_of-or_empty (find (or_default name ++ codes ".txt") w.files);
        fits = fits;
        previous_fits = previous_fits;
        in_int = in_int;
      })
      (record { gone = []; ends = refl; much = inl refl }) fit
