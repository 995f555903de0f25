-- ===== src/Quota/Plan.antt =====
-- What `plan_evictions` does to a directory.
use o_llm.Common.{
  ℕ, ◌-◌, ◌≤◌, ◌≡◌, refl, sym, ap, subst, ◌↔◌, inl, inr, true, some, List, [], ◌∷◌, ◌++◌, arith, In,
  In-map, In-map_inv, In-append_left, In-filter, In-flat_map, In-flat_map_intro, filter,
}
use o_llm.Common.Text.{Text}
use o_llm.Quota.{CacheEntry, dot_ckpt, is_blob, find_entry, sidecar_mtime, plan_evictions}
use o_llm.Quota.Names.{names_of, find_entry_of_In, eq_of_name}
use o_llm.Quota.Batches.{
  Batch, bytes_of, files_of, sidecar_files, sidecar_of, blob_batch, batches, IsBatch, junk, blob,
  In-batches, In-blob_batch, IsBatch-files, IsBatch-own,
}
use o_llm.Quota.Evict.{is_stale, evict, IsShortest, evict-IsShortest}
use o_llm.Quota.Refinement.{IsDirectory, plan_evictions-evict}

-- The plan names the files of the shortest sequence of stale batches, junk first and then blobs
-- with their sidecars, each by age, after which the usage is down to the limit.
pub record IsPlan (entries : List CacheEntry) (limit now grace : ℕ) (names : List Text)
    : Type 0 where
  pub files : List CacheEntry
  pub named : names ≡ names_of files
  pub shortest :
      IsShortest limit (bytes_of entries) (filter (is_stale now grace) (batches entries)) [] files

-- In a directory (distinct names, sizes whose sum fits 64 bits) the planner returns a plan: no
-- lookup panics, no 64-bit sum or difference wraps, and the plan is the shortest sequence of
-- stale batches, in the planner's order, that brings the usage down to the limit, or all of them.
pub plan_evictions-IsPlan :
    (entries : List CacheEntry) (limit now grace : ℕ)
    → IsDirectory entries
    → (names : List Text) × (plan_evictions entries limit now grace ≡ some names)
      × IsPlan entries limit now grace names
plan_evictions-IsPlan entries limit now grace dir =
    let files = evict limit now grace (bytes_of entries) (batches entries) [] in
    (
      names_of files,
      plan_evictions-evict entries dir limit now grace,
      record {
        files = files;
        named = refl;
        shortest = evict-IsShortest limit now grace (bytes_of entries) (batches entries) [];
      },
    )

pub IsPlan_of_some :
    (entries : List CacheEntry) (limit now grace : ℕ) (names : List Text)
    → IsDirectory entries
    → plan_evictions entries limit now grace ≡ some names
    → IsPlan entries limit now grace names
IsPlan_of_some entries limit now grace names dir h =
    let (ns, e, p) = plan_evictions-IsPlan entries limit now grace dir in
    let q : ns ≡ names = ground arith in subst (IsPlan entries limit now grace) q p

module _ (entries : List CacheEntry) (limit now grace : ℕ) (names : List Text)
    (dir : IsDirectory entries)
    (planned : plan_evictions entries limit now grace ≡ some names) where
  pub the_plan : IsPlan entries limit now grace names
  the_plan = IsPlan_of_some entries limit now grace names dir planned

  -- Every deleted file belongs to a stale batch of the plan, and every file of one is deleted.
  pub taken_batch :
      (x : Batch)
      → In x the_plan.shortest.taken
      → In x (batches entries) × (is_stale now grace x ≡ true)
  taken_batch x m = In-filter (is_stale now grace) x (batches entries) (
      subst (In x) (sym the_plan.shortest.in_order)
        (In-append_left x the_plan.shortest.taken the_plan.shortest.rest m))

  files_taken : the_plan.files ≡ files_of the_plan.shortest.taken
  files_taken = the_plan.shortest.deletes

  pub In-files :
      (e : CacheEntry)
      → In e the_plan.files
      → (x : Batch) × In x the_plan.shortest.taken × In e x.files
  In-files e m = In-flat_map (λ b. b.files) e the_plan.shortest.taken (subst (In e) files_taken m)

  pub In-names_of_taken :
      (e : CacheEntry) (x : Batch) → In x the_plan.shortest.taken → In e x.files → In e.name names
  In-names_of_taken e x m h = subst (In e.name) (sym the_plan.named) (
      In-map (λ (y : CacheEntry). y.name) e the_plan.files
        (subst (In e) (sym files_taken)
          (In-flat_map_intro (λ b. b.files) x e the_plan.shortest.taken m h)))

  pub files_entries : (e : CacheEntry) → In e the_plan.files → In e entries
  files_entries e m =
      let (x, i, h) = In-files e m in
      IsBatch-files entries x e (In-batches entries x (taken_batch x i).0) h

  pub In-names : (n : Text) → In n names → (e : CacheEntry) × In e the_plan.files × (n ≡ e.name)
  In-names n m =
      In-map_inv (λ (y : CacheEntry). y.name) n the_plan.files (subst (In n) the_plan.named m)

  pub In-files_of_name : (e : CacheEntry) → In e entries → In e.name names → In e the_plan.files
  In-files_of_name e i m =
      let (f, j, h) = In-names e.name m in
      subst (λ z. In z the_plan.files)
        (sym (eq_of_name entries e f dir.distinct i (files_entries f j) h)) j

  pub taken_of_name :
      (e : CacheEntry) (x : Batch)
      → In e entries
      → IsBatch entries x
      → In e x.files
      → In e.name names
      → In x the_plan.shortest.taken
  taken_of_name e x i b h m =
      let (z, iz, hz) = In-files e (In-files_of_name e i m) in
      subst (λ w. In w the_plan.shortest.taken)
        (IsBatch-own entries dir.distinct z x e (In-batches entries z (taken_batch z iz).0) b hz h)
        iz

  sidecar_In-batch :
      (b s : CacheEntry)
      → In s entries
      → s.name ≡ b.name ++ dot_ckpt
      → In s (blob_batch entries b).files
  sidecar_In-batch b s is e =
      let q : sidecar_of entries b ≡ some s =
        subst (λ n. find_entry entries n ≡ some s) e (find_entry_of_In entries s dir.distinct is) in
      inr (subst (λ o. In s (sidecar_files o)) (sym q) (inl refl))

  -- In a directory whose plan is given, a blob and its sidecar are deleted together or kept
  -- together.
  pub pair_atomic :
      (b s : CacheEntry)
      → In b entries
      → In s entries
      → is_blob b ≡ true
      → s.name ≡ b.name ++ dot_ckpt
      → In b.name names ↔ In s.name names
  pair_atomic b s ib is h e =
      let x = blob_batch entries b in
      let k = blob b ib h refl in
      let ms = sidecar_In-batch b s is e in
      (
        λ m. In-names_of_taken s x (taken_of_name b x ib k (inl refl) m) ms,
        λ m. In-names_of_taken b x (taken_of_name s x is k ms m) (inl refl),
      )

  stale-le : (x : Batch) → is_stale now grace x ≡ true → grace ≤ now - x.mtime
  stale-le x h = ground arith

  batch-mtime-ge :
      (x : Batch) (e : CacheEntry) → IsBatch entries x → In e x.files → e.mtime_unix ≤ x.mtime
  batch-mtime-ge x e (junk f i h q) m =
      let k : In e (f ∷ []) = subst (λ b. In e b.files) q m in
      let r : e ≡ f = elim k [ inl r ↦ r | inr f ↦ absurd f ] in
      omega (arith, ap (λ (b : Batch). b.mtime) q, ap (λ (y : CacheEntry). y.mtime_unix) r)
  batch-mtime-ge x e (blob b i h q) m =
      elim (In-blob_batch entries b e (subst (λ c. In e c.files) q m)) [
        | inl r ↦
            omega (arith, ap (λ (c : Batch). c.mtime) q, ap (λ (y : CacheEntry). y.mtime_unix) r)
        | inr (j, n) ↦
            let s : sidecar_of entries b ≡ some e =
              subst (λ t. find_entry entries t ≡ some e) n
                (find_entry_of_In entries e dir.distinct j) in
            omega (arith, ap (λ (c : Batch). c.mtime) q, ap sidecar_mtime s)
      ]

  -- In a directory whose plan is given, no file touched within the grace period is deleted.
  pub grace_honored : (e : CacheEntry) → In e entries → In e.name names → grace ≤ now - e.mtime_unix
  grace_honored e i m =
      let (x, ix, hx) = In-files e (In-files_of_name e i m) in
      let t = taken_batch x ix in
      omega (arith, stale-le x t.1, batch-mtime-ge x e (In-batches entries x t.0) hx)
