-- ===== src/Quota/Examples.antt =====
-- The planner's own tests (`quota_tests` of src/lib.rs), and the theorems at concrete directories.
use o_llm.Common.{
  ℕ, ◌-◌, ◌*◌, ◌≤◌, ◌<◌, ◌≡◌, refl, ◌↔◌, ◌⊎◌, inl, inr, Bool, true, false, not, ◌&&◌, ◌||◌, Option,
  some, List, [], ◌∷◌, arith, In, Distinct,
}
use o_llm.Common.Text.{Text, codes, text_eq, text_eq_iff, ends_with, strip_suffix}
use o_llm.Common.Sorting.{sort_by_key, insert_by}
use o_llm.Quota.{
  CacheEntry, is_junk, is_blob, has_name, junk_of, pairs_of, pair_of, add64, sub64, usage_from,
  cache_usage_bytes, unit_bytes_from, sweep_junk, sweep_pairs, plan_evictions, enforce_limit,
}
use o_llm.Quota.Names.{names_of}
use o_llm.Quota.Batches.{bytes_of}
use o_llm.Quota.Refinement.{IsDirectory, cache_usage_bytes_lem}
use o_llm.Quota.Plan.{IsPlan, plan_evictions-IsPlan, pair_atomic, grace_honored}
use o_llm.Quota.Order.{lru_order, scratch_sidecar_kept}
use o_llm.Quota.Usage.{enforce_limit_lem}

abbrev has_text : Text → List Text → Bool
has_text n [] = false
has_text n (x ∷ names) = text_eq n x || has_text n names

abbrev are_distinct : List Text → Bool
are_distinct [] = true
are_distinct (x ∷ names) = not (has_text x names) && are_distinct names

In→has_text : (n : Text) (names : List Text) → In n names → has_text n names ≡ true
In→has_text n [] m = elim m [ ]
In→has_text n (x ∷ names) m = ground (arith, text_eq_iff n x, In→has_text n names)

Distinct-by_test : (names : List Text) → are_distinct names ≡ true → Distinct names
Distinct-by_test [] h = tt
Distinct-by_test (x ∷ names) h =
    ((λ m. ground (arith, In→has_text x names m)), Distinct-by_test names (ground arith))

abbrev entry : Text → ℕ → ℕ → CacheEntry
entry name len mtime = record { name = name; len = len; mtime_unix = mtime }

-- Two pairs, an orphan sidecar, and a scratch file with its sidecar.
abbrev old_blob : CacheEntry
old_blob = entry (codes "old__x.bin") 100 1000

abbrev old_sidecar : CacheEntry
old_sidecar = entry (codes "old__x.bin.ckpt") 900 1000

abbrev new_blob : CacheEntry
new_blob = entry (codes "mid__x.bin") 100 2000

abbrev new_sidecar : CacheEntry
new_sidecar = entry (codes "mid__x.bin.ckpt") 900 2000

abbrev orphan : CacheEntry
orphan = entry (codes "gone__x.bin.ckpt") 500 1500

abbrev scratch : CacheEntry
scratch = entry (codes "s__x.bin.save") 10 1200

abbrev scratch_sidecar : CacheEntry
scratch_sidecar = entry (codes "s__x.bin.save.ckpt") 4000 1200

abbrev directory : List CacheEntry
directory =
    old_blob ∷ old_sidecar ∷ new_blob ∷ new_sidecar ∷ orphan ∷ scratch ∷ scratch_sidecar ∷ []

directory-IsDirectory : IsDirectory directory
directory-IsDirectory = record {
  distinct = Distinct-by_test (names_of directory) refl;
  fits = omega arith;
}

run : ℕ → ℕ → ℕ → Option (List Text)
unfolding plan_evictions cache_usage_bytes usage_from add64 sub64 junk_of pairs_of pair_of is_junk
    has_name sweep_junk sweep_pairs unit_bytes_from sort_by_key insert_by ends_with strip_suffix
run limit now grace = plan_evictions directory limit now grace

abbrev swept : List Text
swept = scratch.name ∷ orphan.name ∷ old_blob.name ∷ old_sidecar.name ∷ []

-- The usage is 6510: both leftovers go, then the oldest pair, and 5000 is reached.
run_lem : run 5000 3600 60 ≡ some swept
unfolding run
run_lem = refl

-- Under the limit nothing is deleted; within the grace nothing either.
under_limit : (run 6510 3600 60 ≡ some []) × (run 0 2010 2000 ≡ some [])
unfolding run
under_limit = (refl, refl)

planned : plan_evictions directory 5000 3600 60 ≡ some swept
unfolding run
planned = refl

cache_usage_bytes_lem_example : cache_usage_bytes directory ≡ 6510
cache_usage_bytes_lem_example = cache_usage_bytes_lem directory (omega arith)

plan_evictions-IsPlan_example :
    (names : List Text) × (plan_evictions directory 5000 3600 60 ≡ some names)
    × IsPlan directory 5000 3600 60 names
plan_evictions-IsPlan_example = plan_evictions-IsPlan directory 5000 3600 60 directory-IsDirectory

pair_atomic_example : In old_blob.name swept ↔ In old_sidecar.name swept
unfolding ends_with
pair_atomic_example =
    pair_atomic directory 5000 3600 60 swept directory-IsDirectory planned old_blob old_sidecar
      (inl refl) (inr (inl refl)) refl refl

grace_honored_example : 60 ≤ 3600 - 1000
grace_honored_example =
    grace_honored directory 5000 3600 60 swept directory-IsDirectory planned old_blob (inl refl)
      (inr (inr (inl refl)))

lru_order_example : (pair_of directory old_blob).mtime ≤ (pair_of directory new_blob).mtime
unfolding pair_of ends_with
lru_order_example =
    lru_order directory 5000 3600 60 swept directory-IsDirectory planned new_blob old_blob
      (inr (inr (inl refl))) (inl refl) refl refl (inr (inr (inl refl)))
      (λ m. ground (arith, In→has_text new_blob.name swept m)) (omega arith)

scratch_sidecar_kept_example : ¬ In scratch_sidecar.name swept
unfolding ends_with
scratch_sidecar_kept_example =
    scratch_sidecar_kept directory 5000 3600 60 swept directory-IsDirectory planned scratch_sidecar
      scratch (inr (inr (inr (inr (inr (inr (inl refl)))))))
      (inr (inr (inr (inr (inr (inl refl)))))) refl refl

enforce_limit_lem_example :
    (after : List CacheEntry) × (enforce_limit (λ _. true) 0 3600 directory ≡ some after)
    × ((e : CacheEntry) → In e after → In e directory)
    × ((bytes_of after ≤ 0 * 1024 * 1024)
        ⊎ (((e : CacheEntry) → In e after → is_junk directory e ≡ true → 3600 - e.mtime_unix < 60)
            × ((b : CacheEntry)
                → In b after
                → is_blob b ≡ true
                → 3600 - (pair_of directory b).mtime < 60)))
enforce_limit_lem_example =
    enforce_limit_lem (λ _. true) 0 3600 directory directory-IsDirectory (λ _. refl) (omega arith)

-- 2^44 megabytes delete what a limit of 0 deletes.
