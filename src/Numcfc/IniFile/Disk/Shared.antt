-- ===== src/Numcfc/IniFile/Disk/Shared.antt =====
-- Two programs that share a file.
use numcore_messaging_librar.Common.{
  ℕ, ◌≡◌, ◌≢◌, refl, true, false, [], none, some, Bytes, ◌==◌, arith, ==_iff,
}
use numcore_messaging_librar.OrderedMap.{assign, find}
use numcore_messaging_librar.OrderedMap.Laws.{find-assign}
use numcore_messaging_librar.Numcfc.IniFile.Text.{read_text, to_string}
use numcore_messaging_librar.Numcfc.IniFile.Text.RoundTrip.{IsPrintable, read_text-to_string}
use numcore_messaging_librar.Numcfc.IniFile.Disk.{
  Files, DiskIniFile, FileSystem, load, load_file, refresh, refresh_file, save,
}

module _ (system : FileSystem) (now closed : ℕ) (files : Files) (f g : DiskIniFile)
    (opens : system.opens f.ini.default_filename ≡ true)
    (takes : system.takes (to_string f.ini) ≡ true) where
  -- The file that `f` saves.
  abbrev written : Files
  written =
      assign f.ini.default_filename (record { text = to_string f.ini; modified = closed }) files

  saved :
      save system now closed none files f
      ≡ (true, (written, record f { ini = record (f.ini) { dirty = false }; file_modified = now }))
  unfolding save
  saved = rw (opens, takes) refl

  found :
      (name : Bytes)
      → name ≡ f.ini.default_filename
      → find name written ≡ some (record { text = to_string f.ini; modified = closed })
  found name e = (find-assign f.ini.default_filename name _ files).0 e

  -- The other program, with the file that it has read.
  abbrev refreshed : DiskIniFile
  refreshed = record { ini = read_text g.ini (to_string f.ini); file_modified = closed }

  load-written :
      g.ini.default_filename ≡ f.ini.default_filename
      → load written (some g.ini.default_filename) g
        ≡ (true, record refreshed { file_modified = g.file_modified })
  unfolding load load_file read_text
  load-written same = rw (found g.ini.default_filename same) refl

  -- A program saves its ini file, whose records can be printed, and another one, with the same file
  -- name, but for whom the file has another time, refreshes: the call of each returns true, the
  -- second program has all records of the first, and refreshing again finds nothing new. The file can
  -- be opened and takes the whole text.
  pub refresh-save :
      IsPrintable [] f.ini.contents
      → g.ini.default_filename ≡ f.ini.default_filename
      → g.file_modified ≢ closed
      → let result = save system now closed none files f in
        (result.0 ≡ true)
        × ((g' : DiskIniFile) × (refresh result.1.0 g ≡ (true, g'))
            × (g'.ini.contents ≡ f.ini.contents)
            × (refresh result.1.0 g' ≡ (false, g')))
  unfolding refresh refresh_file read_text
  refresh-save p same other =
      let new : (closed == g.file_modified) ≡ false = ground (arith, other) in
      let old : (closed == closed) ≡ true = (==_iff closed closed).1 refl in
      rw saved (
        refl,
        (
          refreshed,
          rw (found g.ini.default_filename same, new, load-written same) refl,
          read_text-to_string f.ini g.ini p,
          rw (found g.ini.default_filename same, old) refl,
        ),
      )
