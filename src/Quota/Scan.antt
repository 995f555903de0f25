-- ===== src/Quota/Scan.antt =====
-- The scan of the cache directory in `App::enforce_limit` of src/lib.rs. What `read_dir` gives is a
-- parameter: a list of entries, or `none` where the directory cannot be read.
use o_llm.Common.{ℕ, Bool, Option, none, some, List, [], ◌∷◌, if◌then◌else◌, get_or}
use o_llm.Common.Text.{Text}
use o_llm.Quota.{CacheEntry}

-- The length of a file, and its modification time in whole seconds from the epoch: `none` where the
-- time is not available or lies before the epoch.
pub record Metadata : Type 0 where
  pub len : ℕ
  pub modified : Option ℕ

-- Whether the path is a regular file, the metadata if they can be read, and the name if it is
-- valid UTF-8.
pub record DirEntry : Type 0 where
  pub is_file : Bool
  pub metadata : Option Metadata
  pub name : Option Text

-- `let Some(name) = … else { continue }`
abbrev pub push_named : Option Text → Metadata → List CacheEntry → List CacheEntry
push_named none md entries = entries
push_named (some name) md entries =
    record { name = name; len = md.len; mtime_unix = get_or md.modified 0 } ∷ entries

-- `let Ok(md) = … else { continue }`
abbrev pub push_file : Option Text → Option Metadata → List CacheEntry → List CacheEntry
push_file name none entries = entries
push_file name (some md) entries = push_named name md entries

-- The loop over `rd.flatten()`, which passes over an entry that cannot be read.
unfoldable pub entries_of : List (Option DirEntry) → List CacheEntry
entries_of [] = []
entries_of (none ∷ rd) = entries_of rd
entries_of (some e ∷ rd) =
    let rest = entries_of rd in if e.is_file then push_file e.name e.metadata rest else rest

unfoldable pub scanned : Option (List (Option DirEntry)) → List CacheEntry
unfolding entries_of
scanned none = []
scanned (some rd) = entries_of rd
