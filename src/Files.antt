-- ===== src/Files.antt =====
-- statApp/src/lsutils.cpp: files and directories. What the system answers is an argument.
pub mod Directory
mod Tests
use lin_stat.Base.{Bool, true, false, List, [], ◌∷◌, ◌++◌, Option, none, some, ◌==◌, if◌then◌else◌}
use lin_stat.Base.Text.{Bytes, codes}
use lin_stat.Base.Parse.{has_prefix, words}

unfoldable pub starts_with : Bytes → Bytes → Bool
starts_with inp prefix = has_prefix prefix inp

abbrev first_word : List Bytes → Option Bytes
first_word [] = none
first_word (w ∷ ws) = some w

-- read_file(): the first word of the file, if it opens and has one.
unfoldable pub read_file : Option Bytes → Option Bytes
unfolding words
read_file none = none
read_file (some content) = first_word (words content)

-- dirent::d_type, as far as it matters.
pub data Kind : Type 0 where
  directory regular symlink other : Kind

-- What readdir() gives, and what fstatat() then finds behind a symbolic link.
pub record Entry : Type 0 where
  pub filename : Bytes
  pub kind : Kind
  pub target : Option Kind

abbrev behind : Option Kind → Kind
behind (some directory) = directory
behind (some regular) = regular
behind _ = symlink

-- ReadDir::next()
unfoldable pub next_entry : Entry → Entry
next_entry e = elim e.kind [ symlink ↦ record e { kind = behind e.target } | _ ↦ e ]

unfoldable pub is_directory : Entry → Bool
is_directory e = elim e.kind [ directory ↦ true | _ ↦ false ]

abbrev ends_in_slash : Bytes → Bool
ends_in_slash [] = false
ends_in_slash (c ∷ []) = c == b'/'
ends_in_slash (c ∷ d ∷ s) = ends_in_slash (d ∷ s)

-- ReadDir::dirname
unfoldable pub dirname : Bytes → Bytes
dirname [] = codes "./"
dirname (c ∷ s) = if ends_in_slash (c ∷ s) then c ∷ s else (c ∷ s) ++ codes "/"

-- ReadDir::path()
unfoldable pub path : Bytes → Entry → Bytes
unfolding dirname
path dir e = dirname dir ++ e.filename
