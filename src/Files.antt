-- ===== src/Files.antt =====
-- What the program asks of the file system and of package path/filepath.
use aragorn.Prelude.{Str, codes, Outcome, Bool, starts_with, if◌then◌else◌}

-- `join` and `dir` are filepath.Join of two parts and filepath.Dir.
pub record Files : Type 0 where
  -- os.Open and reading all of the file
  pub read : Str → Outcome Str Str
  pub join : Str → Str → Str
  pub dir : Str → Str

-- filepath.IsAbs on Unix
unfoldable pub is_abs : Str → Bool
is_abs path = starts_with (codes "/") path

-- `getFilePath`, which three Config types share: a relative path is taken from a directory.
unfoldable pub get_file_path : Files → Str → Str → Str
unfolding is_abs
get_file_path fs root path = if is_abs path then path else fs.join root path
