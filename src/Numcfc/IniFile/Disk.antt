-- ===== src/Numcfc/IniFile/Disk.antt =====
-- The files on disk: `SetFilename`, `Refresh`, `Load` and `Save`.
pub mod Shared
use numcore_messaging_librar.Common.{
  ℕ, Bool, true, false, not, ◌&&◌, [], Option, none, some, Bytes, ◌==◌, if◌then◌else◌,
}
use numcore_messaging_librar.OrderedMap.{OrderedMap, assign, find}
use numcore_messaging_librar.Numcfc.IniFile.{IniFile, new_ini_file}
use numcore_messaging_librar.Numcfc.IniFile.Text.{read_text, to_string}

-- A file's text, and `st_mtime`.
pub record File : Type 0 where
  pub text : Bytes
  pub modified : ℕ

-- The files that can be opened, by their names.
abbrev pub Files : Type 0
Files = OrderedMap File

-- An ini file with `m_tFileModified`.
pub record DiskIniFile : Type 0 where
  pub ini : IniFile
  pub file_modified : ℕ

-- What the file system does with a file that is opened for writing: whether it can be, whether it
-- takes the whole text, and what it holds otherwise.
pub record FileSystem : Type 0 where
  pub opens : Bytes → Bool
  pub takes : Bytes → Bool
  pub cut : Bytes → Bytes

-- A file name that may be left out, as a null pointer.
abbrev pub or_default : DiskIniFile → Option Bytes → Bytes
or_default f none = f.ini.default_filename
or_default f (some filename) = filename

unfoldable pub load_file : DiskIniFile → Option File → Bool × DiskIniFile
unfolding read_text
load_file f none = (false, f)
load_file f (some file) = (true, record f { ini = read_text f.ini file.text })

unfoldable pub load : Files → Option Bytes → DiskIniFile → Bool × DiskIniFile
unfolding load_file find
load files filename f =
    load_file (record f { ini = record (f.ini) { default_filename = or_default f filename } })
      (find (or_default f filename) files)

abbrev loaded_at : ℕ → DiskIniFile → Bool × DiskIniFile → Bool × DiskIniFile
loaded_at modified f (true, g) = (true, record g { file_modified = modified })
loaded_at modified f (false, g) = (false, g)

-- `stat` of the file, if it is there.
unfoldable pub refresh_file : Files → DiskIniFile → Option File → Bool × DiskIniFile
unfolding load
refresh_file files f none = (false, f)
refresh_file files f (some file) =
    if file.modified == f.file_modified
    then (false, f)
    else loaded_at file.modified f (load files (some f.ini.default_filename) f)

unfoldable pub refresh : Files → DiskIniFile → Bool × DiskIniFile
unfolding refresh_file find
refresh files f = refresh_file files f (find f.ini.default_filename files)

-- `now` is what `time` returns, and `closed` the time at which the file is closed.
unfoldable pub save :
    FileSystem → ℕ → ℕ → Option Bytes → Files → DiskIniFile → Bool × (Files × DiskIniFile)
unfolding assign to_string
save system now closed filename files f =
    let name = or_default f filename in
    let text = to_string f.ini in
    let whole = system.takes text in
    let stored : Files =
      assign name (record { text = if whole then text else system.cut text; modified = closed })
        files in
    let clean : DiskIniFile = record f {
      ini = record (f.ini) { dirty = false };
      file_modified = now;
    } in
    if system.opens name then (whole, (stored, if whole then clean else f)) else (false, (files, f))

abbrev create_file : FileSystem → ℕ → Bytes → Files → Option File → Files
create_file system now filename files (some file) = files
create_file system now filename files none =
    if system.opens filename
    then assign filename (record { text = []; modified = now }) files
    else files

unfoldable pub set_filename : FileSystem → ℕ → Bytes → Files → DiskIniFile → Files × DiskIniFile
unfolding find assign
set_filename system now filename files f = (
  create_file system now filename files (find filename files),
  record f { ini = record (f.ini) { default_filename = filename }; file_modified = 0 },
)
