-- ===== src/Numcfc/Logger/Tracking.antt =====
-- A logger and its two files.
use numcore_messaging_librar.Common.{
  ◌+◌, ◌%◌, ◌^◌, ◌≤◌, ◌<◌, ◌≡◌, ◌≢◌, ◌⊎◌, inl, inr, refl, sym, ap, ◌∙◌, [], ◌++◌, append_assoc,
  none, some, Bytes, length, length-append, arith,
}
use numcore_messaging_librar.OrderedMap.{OrderedMap, assign, erase, find}
use numcore_messaging_librar.OrderedMap.Laws.{
  IsSorted, assign-IsSorted, erase-IsSorted, find-assign, find-erase,
}
use numcore_messaging_librar.Numcfc.Logger.{Logger, or_empty, roll_files}

-- A file that is not there holds nothing.
abbrev pub text_at : Bytes → OrderedMap Bytes → Bytes
text_at name files = or_empty (find name files)

-- The files of a logger.
pub record IsTracked (l : Logger) (files : OrderedMap Bytes) : Type 0 where
  pub sorted : IsSorted files
  pub two_names : l.filename ≢ l.filename_previous
  pub size : l.current_size ≡ length (text_at l.filename files)
  pub fits : length (text_at l.filename files) ≤ l.max_size
  pub previous_fits : length (text_at l.filename_previous files) ≤ l.max_size
  pub in_int : l.max_size < 2 ^ 32

-- The files hold the end of the history: all of it, or more than one file may hold.
pub record Keeps (l : Logger) (files : OrderedMap Bytes) (history : Bytes) : Type 0 where
  pub gone : Bytes
  pub ends : gone ++ (text_at l.filename_previous files ++ text_at l.filename files) ≡ history
  pub much :
      (gone ≡ [])
      ⊎ (l.max_size
          < length (text_at l.filename_previous files) + length (text_at l.filename files))

-- The line behind the others.
abbrev pub longer : Logger → OrderedMap Bytes → Bytes → OrderedMap Bytes
longer l files line = assign l.filename (text_at l.filename files ++ line) files

-- The file, which holds `text`, has become the previous one.
abbrev pub rolled : Logger → OrderedMap Bytes → Bytes → OrderedMap Bytes
rolled l files text =
    assign l.filename_previous text (erase l.filename (erase l.filename_previous files))

-- And a new file has the line.
abbrev pub started : Logger → OrderedMap Bytes → Bytes → Bytes → OrderedMap Bytes
started l files line text = assign l.filename line (rolled l files text)

module _ (l : Logger) (files : OrderedMap Bytes) (line history : Bytes) (t : IsTracked l files)
    (fits : length line ≤ l.max_size) where
  pub sum_small : (l.current_size + length line) % 2 ^ 64 ≡ l.current_size + length line
  sum_small = omega (arith, t.size, t.fits, t.in_int)

  found_longer : text_at l.filename (longer l files line) ≡ text_at l.filename files ++ line
  found_longer = ap or_empty ((find-assign l.filename l.filename _ files).0 refl)

  previous_longer :
      text_at l.filename_previous (longer l files line) ≡ text_at l.filename_previous files
  previous_longer =
      ap or_empty
        ((find-assign l.filename l.filename_previous _ files).1 (λ e. t.two_names (sym e)))

  pub longer-IsTracked :
      (l' : Logger)
      → l' ≡ record l { current_size = l.current_size + length line }
      → l.current_size + length line ≤ l.max_size
      → IsTracked l' (longer l files line)
  longer-IsTracked l' e h = rw e (record {
    sorted = assign-IsSorted l.filename _ files t.sorted;
    two_names = t.two_names;
    size = rw found_longer (omega (arith, t.size, length-append (text_at l.filename files) line));
    fits = rw found_longer (omega (arith, t.size, length-append (text_at l.filename files) line));
    previous_fits = rw previous_longer t.previous_fits;
    in_int = t.in_int;
  })

  pub longer-Keeps : Keeps l files history → Keeps l (longer l files line) (history ++ line)
  longer-Keeps k = record {
    gone = k.gone;
    ends = rw (found_longer, previous_longer, ← k.ends) (simp append_assoc refl);
    much = elim k.much [
      | inl nothing ↦ inl nothing
      | inr enough ↦ inr (
          rw (found_longer, previous_longer)
            (omega (arith, enough, length-append (text_at l.filename files) line)))
    ];
  }

  module _ (text : Bytes) (there : find l.filename files ≡ some text) where
    others-IsSorted : IsSorted (erase l.filename_previous files)
    others-IsSorted = erase-IsSorted l.filename_previous files t.sorted

    pub roll_files-rolled : roll_files l files ≡ rolled l files text
    unfolding roll_files
    roll_files-rolled =
        let kept : find l.filename (erase l.filename_previous files) ≡ some text =
          (find-erase l.filename_previous l.filename files t.sorted).1 t.two_names ∙ there in
        rw kept refl

    pub rolled-none : find l.filename (rolled l files text) ≡ none
    rolled-none =
        (find-assign l.filename_previous l.filename text _).1 t.two_names
        ∙ (find-erase l.filename l.filename _ others-IsSorted).0 refl

    found_started : text_at l.filename (started l files line text) ≡ line
    found_started =
        ap or_empty ((find-assign l.filename l.filename line (rolled l files text)).0 refl)

    previous_started : text_at l.filename_previous (started l files line text) ≡ text
    previous_started = ap or_empty (
        (find-assign l.filename l.filename_previous line (rolled l files text)).1
          (λ e. t.two_names (sym e))
        ∙ (find-assign l.filename_previous l.filename_previous text _).0 refl)

    was : text_at l.filename files ≡ text
    was = ap or_empty there

    pub started-IsTracked :
        IsTracked (record l { current_size = length line }) (started l files line text)
    started-IsTracked = record {
      sorted = assign-IsSorted l.filename line (rolled l files text) (
          assign-IsSorted l.filename_previous text _ (erase-IsSorted l.filename _ others-IsSorted));
      two_names = t.two_names;
      size = ap length (sym found_started);
      fits = rw found_started fits;
      previous_fits = rw previous_started (rw was at t.fits);
      in_int = t.in_int;
    }

    pub started-Keeps :
        l.max_size < l.current_size + length line
        → Keeps l files history
        → Keeps l (started l files line text) (history ++ line)
    started-Keeps over k = record {
      gone = k.gone ++ text_at l.filename_previous files;
      ends = rw (found_started, previous_started, ← k.ends, was) (simp append_assoc refl);
      much =
          inr (rw (found_started, previous_started) (omega (arith, over, t.size, ap length was)));
    }
