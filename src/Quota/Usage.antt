-- ===== src/Quota/Usage.antt =====
-- What is left of the directory after `enforce_limit`, and how much.
use mathlib.Core.List.{append-nil}
use o_llm.Common.{
  ℕ, ◌+◌, ◌-◌, ◌*◌, ◌%◌, ◌^◌, ◌≤◌, ◌<◌, ◌≡◌, refl, sym, ap, subst, ◌∙◌, ◌⊎◌, inl, inr, Bool, true,
  false, not, ◌||◌, some, List, [], ◌∷◌, ◌++◌, arith, In, Distinct, In-map, In-filter,
  In-filter_intro, filter, Bool-cases,
}
use o_llm.Common.Text.{Text, text_eq, text_eq_iff}
use o_llm.Common.NoRepeat.{
  sum_by-le, Distinct-filter, Distinct-of_map, Distinct-flat_map, Distinct-of_append,
}
use o_llm.Quota.{CacheEntry, is_junk, is_blob, pair_of, plan_evictions, delete_all, enforce_limit}
use o_llm.Quota.Batches.{
  Batch, bytes_of, junk_batch, blob_batch, batches, IsBatch, In-batches, IsBatch-own,
  batches-Distinct, IsBatch-Distinct,
}
use o_llm.Quota.Evict.{is_stale}
use o_llm.Quota.Refinement.{IsDirectory}
use o_llm.Quota.Plan.{
  IsPlan, the_plan, plan_evictions-IsPlan, In-files_of_name, files_entries, taken_batch,
  In-names_of_taken,
}
use o_llm.Quota.Order.{In-blob, In-junk}

abbrev contains : List Text → Text → Bool
contains [] n = false
contains (x ∷ names) n = text_eq n x || contains names n

contains→In : (names : List Text) (n : Text) → contains names n ≡ true → In n names
contains→In [] n h = cc
contains→In (x ∷ names) n h = ground (arith, text_eq_iff n x, contains→In names n)

In→contains : (names : List Text) (n : Text) → In n names → contains names n ≡ true
In→contains [] n h = elim h [ ]
In→contains (x ∷ names) n h = ground (arith, text_eq_iff n x, In→contains names n)

-- The entries that no name of the plan deletes.
abbrev kept : List Text → List CacheEntry → List CacheEntry
kept names = filter (λ e. not (contains names e.name))

abbrev dropped : List Text → List CacheEntry → List CacheEntry
dropped names = filter (λ e. contains names e.name)

kept-add-dropped :
    (names : List Text) (entries : List CacheEntry)
    → bytes_of (kept names entries) + bytes_of (dropped names entries) ≡ bytes_of entries
kept-add-dropped names [] = refl
kept-add-dropped names (e ∷ entries) = ground (arith, kept-add-dropped names entries)

filter-kept :
    (n : Text) (names : List Text) (entries : List CacheEntry)
    → kept names (filter (λ e. not (text_eq e.name n)) entries) ≡ kept (n ∷ names) entries
filter-kept n names [] = refl
filter-kept n names (e ∷ entries) = ground (arith, filter-kept n names entries)

-- Where every removal succeeds, exactly the names of the plan are gone.
delete_all-kept :
    (removes : Text → Bool) (names : List Text) (entries : List CacheEntry)
    → ((n : Text) → removes n ≡ true)
    → delete_all removes names entries ≡ kept names entries
unfolding delete_all
delete_all-kept removes [] entries h = all_kept entries
  where
    all_kept : (xs : List CacheEntry) → xs ≡ kept [] xs
    all_kept [] = refl
    all_kept (x ∷ xs) = ap (◌∷◌ x) (all_kept xs)
delete_all-kept removes (n ∷ names) entries h = rw (h n) (
    delete_all-kept removes names (filter (λ e. not (text_eq e.name n)) entries) h
    ∙ filter-kept n names entries)

module _ (entries : List CacheEntry) (limit now grace : ℕ) (names : List Text)
    (dir : IsDirectory entries)
    (planned : plan_evictions entries limit now grace ≡ some names) where
  abbrev pub p : IsPlan entries limit now grace names
  p = the_plan entries limit now grace names dir planned

  deleted_name : (e : CacheEntry) → In e p.files → In e.name names
  deleted_name e m =
      subst (In e.name) (sym p.named) (In-map (λ (y : CacheEntry). y.name) e p.files m)

  files_bytes-le : bytes_of p.files ≤ bytes_of (dropped names entries)
  files_bytes-le =
      sum_by-le (λ e. e.len) p.files (dropped names entries) files_once
        λ e m.
          In-filter_intro (λ x. contains names x.name) e entries
            (files_entries entries limit now grace names dir planned e m)
            (In→contains names e.name (deleted_name e m))
    where
      files_once : Distinct p.files
      files_once = subst Distinct (sym p.shortest.deletes) (
          Distinct-flat_map (λ b. b.files) p.shortest.taken
            (Distinct-of_append p.shortest.taken p.shortest.rest (
              subst Distinct p.shortest.in_order (
                Distinct-filter (is_stale now grace) (batches entries)
                  (batches-Distinct entries dir.distinct))))
            (λ x m. IsBatch-Distinct entries dir.distinct x (in_batches x m))
            (λ x z y mx mz.
              IsBatch-own entries dir.distinct x z y (in_batches x mx) (in_batches z mz)))
        where
          in_batches : (x : Batch) → In x p.shortest.taken → IsBatch entries x
          in_batches x m =
              In-batches entries x (taken_batch entries limit now grace names dir planned x m).0

  dropped_bytes-le : bytes_of (dropped names entries) ≤ bytes_of p.files
  dropped_bytes-le =
      sum_by-le (λ e. e.len) (dropped names entries) p.files
        (Distinct-filter (λ e. contains names e.name) entries
          (Distinct-of_map (λ e. e.name) entries dir.distinct))
        (λ e m.
          let r = In-filter (λ x. contains names x.name) e entries m in
          In-files_of_name entries limit now grace names dir planned e r.0
            (contains→In names e.name r.1))

  -- What the plan counts as freed is what its deletion frees.
  bytes_of-kept : bytes_of (kept names entries) ≡ bytes_of entries - bytes_of p.files
  bytes_of-kept = omega (arith, files_bytes-le, dropped_bytes-le, kept-add-dropped names entries)

  all_taken :
      (x : Batch)
      → p.shortest.rest ≡ []
      → In x (batches entries)
      → is_stale now grace x ≡ true
      → In x p.shortest.taken
  all_taken x e m h = subst (In x) (ap (◌++◌ p.shortest.taken) e ∙ append-nil p.shortest.taken) (
      subst (In x) p.shortest.in_order
        (In-filter_intro (is_stale now grace) x (batches entries) m h))

  not_kept : (e : CacheEntry) → In e (kept names entries) → In e.name names → ⊥
  not_kept e m n = ground (
    arith,
    (In-filter (λ x. not (contains names x.name)) e entries m).1,
    In→contains names e.name n,
  )

  kept_blob_fresh :
      p.shortest.rest ≡ []
      → (b : CacheEntry) → In b (kept names entries)
      → is_blob b ≡ true
      → now - (pair_of entries b).mtime < grace
  unfolding pair_of
  kept_blob_fresh none_left b m h = elim (Bool-cases (is_stale now grace (blob_batch entries b))) [
    | inl old ↦
        let i = (In-filter (λ x. not (contains names x.name)) b entries m).0 in
        let t =
          all_taken (blob_batch entries b) none_left
            (In-blob entries limit now grace names dir planned b i h) old in
        absurd (
          not_kept b m (
            In-names_of_taken entries limit now grace names dir planned b (blob_batch entries b) t
              (inl refl)))
    | inr new ↦ ground arith
  ]

  kept_junk_fresh :
      p.shortest.rest ≡ []
      → (e : CacheEntry) → In e (kept names entries)
      → is_junk entries e ≡ true
      → now - e.mtime_unix < grace
  kept_junk_fresh none_left e m h = elim (Bool-cases (is_stale now grace (junk_batch e))) [
    | inl old ↦
        let i = (In-filter (λ x. not (contains names x.name)) e entries m).0 in
        let t =
          all_taken (junk_batch e) none_left
            (In-junk entries limit now grace names dir planned e i h) old in
        absurd (
          not_kept e m (
            In-names_of_taken entries limit now grace names dir planned e (junk_batch e) t
              (inl refl)))
    | inr new ↦ ground arith
  ]

-- Where every removal succeeds and the limit in bytes fits 64 bits, `enforce_limit` returns, and
-- leaves a part of the directory. Either its size is down to the limit, or every orphan and
-- leftover in it, and every blob's pair, was touched within the 60 seconds of grace.
pub enforce_limit_lem :
    (removes : Text → Bool) (cache_limit_mb now : ℕ) (entries : List CacheEntry)
    → IsDirectory entries
    → ((n : Text) → removes n ≡ true)
    → cache_limit_mb * 1024 * 1024 < 2 ^ 64
    → (after : List CacheEntry) × (enforce_limit removes cache_limit_mb now entries ≡ some after)
      × ((e : CacheEntry) → In e after → In e entries)
      × ((bytes_of after ≤ cache_limit_mb * 1024 * 1024)
          ⊎ (((e : CacheEntry) → In e after → is_junk entries e ≡ true → now - e.mtime_unix < 60)
              × ((b : CacheEntry)
                  → In b after
                  → is_blob b ≡ true
                  → now - (pair_of entries b).mtime < 60)))
unfolding enforce_limit
enforce_limit_lem removes mb now entries dir all small =
    let limit = mb * 1024 * 1024 in
    let same : limit % 2 ^ 64 ≡ limit = omega arith in
    let (names, e, _) = plan_evictions-IsPlan entries limit now 60 dir in
    (
      kept names entries,
      rw (same, e, delete_all-kept removes names entries all),
      λ x m. (In-filter (λ y. not (contains names y.name)) x entries m).0,
      elim (the_plan entries limit now 60 names dir e).shortest.enough [
        | inl none_left ↦ inr (
          kept_junk_fresh entries limit now 60 names dir e none_left,
          kept_blob_fresh entries limit now 60 names dir e none_left,
        )
        | inr fits ↦ inl (omega (arith, bytes_of-kept entries limit now 60 names dir e))
      ],
    )
