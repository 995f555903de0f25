-- ===== src/Quota.antt =====
-- The disk-quota planner of src/lib.rs: `CacheEntry`, `cache_usage_bytes`, `plan_evictions`.
-- `u64` arithmetic wraps, as it does in a release build; a debug build panics where it would wrap.
pub mod Names
pub mod Batches
pub mod Evict
pub mod Refinement
pub mod Plan
pub mod Order
pub mod Usage
pub mod Wrap
pub mod Scan
mod Examples
use mathlib.Core.Option
use o_llm.Common.{
  ℕ, ◌+◌, ◌-◌, ◌*◌, ◌%◌, ◌^◌, max, Bool, true, false, not, ◌||◌, Option, none, some, List, [], ◌∷◌,
  ◌++◌, map, ltb, leb, if◌then◌else◌, find, filter, get_or,
}
use o_llm.Common.Text.{Text, codes, text_eq, ends_with, strip_suffix}
use o_llm.Common.Sorting.{sort_by_key}

pub record CacheEntry : Type 0 where
  pub name : Text
  pub len : ℕ
  pub mtime_unix : ℕ

-- `+` and `-` on `u64`.
unfoldable pub add64 : ℕ → ℕ → ℕ
add64 a b = (a + b) % 2 ^ 64

unfoldable pub sub64 : ℕ → ℕ → ℕ
sub64 a b = (a + 2 ^ 64 - b) % 2 ^ 64

unfoldable pub usage_from : ℕ → List CacheEntry → ℕ
usage_from acc [] = acc
usage_from acc (e ∷ entries) = usage_from (add64 acc e.len) entries

unfoldable pub cache_usage_bytes : List CacheEntry → ℕ
cache_usage_bytes entries = usage_from 0 entries

abbrev pub dot_bin : Text
dot_bin = codes ".bin"

abbrev pub dot_ckpt : Text
dot_ckpt = codes ".ckpt"

-- `entries.iter().find(|e| e.name == name)`
abbrev pub find_entry : List CacheEntry → Text → Option CacheEntry
find_entry entries name = find (λ e. text_eq e.name name) entries

-- `names.contains(name)`
unfoldable pub has_name : List CacheEntry → Text → Bool
has_name [] name = false
has_name (e ∷ entries) name = text_eq e.name name || has_name entries name

-- The filter of pass 1.
unfoldable pub is_junk : List CacheEntry → CacheEntry → Bool
is_junk entries e =
    if ends_with e.name dot_bin
    then false
    else if ends_with e.name dot_ckpt
    then not (has_name entries (get_or (strip_suffix e.name dot_ckpt) []))
    else true

-- `plan` and `freed`.
pub record Progress : Type 0 where
  pub names : List Text
  pub freed : ℕ

-- A pair of pass 2.
pub record Pair : Type 0 where
  pub mtime : ℕ
  pub unit : List Text

abbrev pub sidecar_mtime : Option CacheEntry → ℕ
sidecar_mtime none = 0
sidecar_mtime (some s) = s.mtime_unix

abbrev pub sidecar_name : Option CacheEntry → List Text
sidecar_name none = []
sidecar_name (some s) = s.name ∷ []

unfoldable pub pair_of : List CacheEntry → CacheEntry → Pair
pair_of entries b =
    let sidecar = find_entry entries (b.name ++ dot_ckpt) in
    record {
      mtime = max b.mtime_unix (sidecar_mtime sidecar);
      unit = b.name ∷ sidecar_name sidecar;
    }

abbrev pub is_blob : CacheEntry → Bool
is_blob e = ends_with e.name dot_bin

-- The lists that the two loops run over.
unfoldable pub junk_of : List CacheEntry → List CacheEntry
junk_of entries = sort_by_key (λ e. e.mtime_unix) (filter (is_junk entries) entries)

unfoldable pub pairs_of : List CacheEntry → List Pair
pairs_of entries = sort_by_key (λ p. p.mtime) (map (pair_of entries) (filter is_blob entries))

module _ (entries : List CacheEntry) where
  -- The sum over the unit; `none` is the panic of `unwrap` on a name that no entry has.
  unfoldable pub unit_bytes_from : ℕ → List Text → Option ℕ
  unit_bytes_from acc [] = some acc
  unit_bytes_from acc (n ∷ names) = elim (find_entry entries n) [
    | none ↦ none
    | some e ↦ unit_bytes_from (add64 acc e.len) names
  ]

module _ (entries : List CacheEntry) (limit_bytes now_unix grace_secs total : ℕ) where
  unfoldable pub sweep_junk : List CacheEntry → Progress → Progress
  sweep_junk [] p = p
  sweep_junk (e ∷ junk) p =
      let skipped = sweep_junk junk p in
      let deleted =
        sweep_junk junk
          (record { names = p.names ++ (e.name ∷ []); freed = add64 p.freed e.len }) in
      if leb (sub64 total p.freed) limit_bytes
      then p
      else if ltb (now_unix - e.mtime_unix) grace_secs
      then skipped
      else deleted

  unfoldable pub sweep_pairs : List Pair → Progress → Option Progress
  sweep_pairs [] p = some p
  sweep_pairs (u ∷ pairs) p =
      let skipped = sweep_pairs pairs p in
      let deleted : Option Progress = elim (unit_bytes_from entries 0 u.unit) [
        | none ↦ none
        | some n ↦ sweep_pairs pairs (record { names = p.names ++ u.unit; freed = add64 p.freed n })
      ] in
      if leb (sub64 total p.freed) limit_bytes
      then some p
      else if ltb (now_unix - u.mtime) grace_secs
      then skipped
      else deleted

-- The names to delete, in order.
unfoldable pub plan_evictions : List CacheEntry → ℕ → ℕ → ℕ → Option (List Text)
plan_evictions entries limit_bytes now_unix grace_secs =
    let total = cache_usage_bytes entries in
    let swept =
      sweep_junk entries limit_bytes now_unix grace_secs total (junk_of entries)
        (record { names = []; freed = 0 }) in
    if leb total limit_bytes
    then some []
    else Option.map (λ p. p.names)
        (sweep_pairs entries limit_bytes now_unix grace_secs total (pairs_of entries) swept)

-- `enforce_limit` on the entries that it scans: the regular files of the cache directory with a
-- readable name. A removal that fails is logged, and the loop goes on.
unfoldable pub delete_all : (Text → Bool) → List Text → List CacheEntry → List CacheEntry
delete_all removes [] entries = entries
delete_all removes (n ∷ names) entries =
    delete_all removes names
      (if removes n then filter (λ e. not (text_eq e.name n)) entries else entries)

-- `removes` says which calls of `remove_file` succeed. `none` is a panic of the planner.
unfoldable pub enforce_limit : (Text → Bool) → ℕ → ℕ → List CacheEntry → Option (List CacheEntry)
enforce_limit removes cache_limit_mb now entries =
    Option.map (λ names. delete_all removes names entries)
      (plan_evictions entries (cache_limit_mb * 1024 * 1024 % 2 ^ 64) now 60)
