-- ===== src/Quota/Batches.antt =====
-- The units that the planner deletes whole: a junk file, or a blob with its sidecar (src/lib.rs).
use mathlib.Core.List.{append_cancel_right}
use o_llm.Common.{
  ℕ, ◌≤◌, ◌≡◌, refl, sym, ap, subst, ◌∙◌, ◌≢◌, ◌⊎◌, inl, inr, true, Option, none, some, List, [],
  ◌∷◌, ◌++◌, map, max, arith, In, Distinct, In-map, In-map_inv, In-append, In-filter,
  In-filter_intro, In-flat_map, filter, flat_map, sum_by, Option-cases,
}
use o_llm.Common.Text.{ends_with}
use o_llm.Common.Sorting.{sort_by_key, sort_by_key-In, sort_by_key-In_intro}
use o_llm.Common.NoRepeat.{
  Distinct-append, Distinct-filter, Distinct-sort_by_key, Distinct-map, Distinct-of_map,
  Distinct-flat_map, sum_by-le,
}
use o_llm.Quota.{
  CacheEntry, dot_bin, dot_ckpt, find_entry, is_junk, is_blob, junk_of, sidecar_mtime,
}
use o_llm.Quota.Names.{
  HasDistinctNames, ends_with-bin_of_ckpt, find_entry-some, eq_of_name, is_junk-blob,
  is_junk-sidecar,
}

pub record Batch : Type 0 where
  pub mtime : ℕ
  pub files : List CacheEntry

abbrev pub bytes_of : List CacheEntry → ℕ
bytes_of = sum_by (λ e. e.len)

abbrev pub files_of : List Batch → List CacheEntry
files_of = flat_map (λ b. b.files)

abbrev pub sidecar_files : Option CacheEntry → List CacheEntry
sidecar_files none = []
sidecar_files (some s) = s ∷ []

abbrev pub junk_batch : CacheEntry → Batch
junk_batch e = record { mtime = e.mtime_unix; files = e ∷ [] }

module _ (entries : List CacheEntry) where
  abbrev pub sidecar_of : CacheEntry → Option CacheEntry
  sidecar_of b = find_entry entries (b.name ++ dot_ckpt)

  -- As old as the younger of the two files.
  abbrev pub blob_batch : CacheEntry → Batch
  blob_batch b = record {
    mtime = max b.mtime_unix (sidecar_mtime (sidecar_of b));
    files = b ∷ sidecar_files (sidecar_of b);
  }

  abbrev pub blobs_of : List CacheEntry
  blobs_of = filter is_blob entries

  abbrev pub blob_batches : List Batch
  blob_batches = sort_by_key (λ b. b.mtime) (map blob_batch blobs_of)

  -- Junk by age, then blobs with their sidecars by age.
  abbrev pub batches : List Batch
  batches = map junk_batch (junk_of entries) ++ blob_batches

  pub data IsBatch (x : Batch) : Type 0 where
    junk : (e : CacheEntry) → In e entries → is_junk entries e ≡ true → x ≡ junk_batch e → IsBatch x
    blob : (b : CacheEntry) → In b entries → is_blob b ≡ true → x ≡ blob_batch b → IsBatch x

  In-junk_batches :
      (x : Batch)
      → In x (map junk_batch (junk_of entries))
      → (e : CacheEntry) × In e entries × (is_junk entries e ≡ true) × (x ≡ junk_batch e)
  unfolding junk_of
  In-junk_batches x m =
      let (e, i, h) = In-map_inv junk_batch x (junk_of entries) m in
      let r = In-filter (is_junk entries) e entries (sort_by_key-In _ e _ i) in (e, r.0, r.1, h)

  pub In-blob_batches :
      (x : Batch)
      → In x blob_batches
      → (b : CacheEntry) × In b entries × (is_blob b ≡ true) × (x ≡ blob_batch b)
  In-blob_batches x m =
      let (b, i, h) = In-map_inv blob_batch x blobs_of (sort_by_key-In _ x _ m) in
      let r = In-filter is_blob b entries i in (b, r.0, r.1, h)

  pub In-batches : (x : Batch) → In x batches → IsBatch x
  In-batches x m = elim (In-append x (map junk_batch (junk_of entries)) blob_batches m) [
    | inl l ↦ let (e, i, h, q) = In-junk_batches x l in junk e i h q
    | inr r ↦ let (b, i, h, q) = In-blob_batches x r in blob b i h q
  ]

  pub In-batches_junk :
      (e : CacheEntry)
      → In e entries
      → is_junk entries e ≡ true
      → In (junk_batch e) (map junk_batch (junk_of entries))
  unfolding junk_of
  In-batches_junk e m h =
      In-map junk_batch e (junk_of entries)
        (sort_by_key-In_intro _ e _ (In-filter_intro (is_junk entries) e entries m h))

  pub In-batches_blob :
      (b : CacheEntry) → In b entries → is_blob b ≡ true → In (blob_batch b) blob_batches
  In-batches_blob b m h =
      sort_by_key-In_intro _ (blob_batch b) _
        (In-map blob_batch b blobs_of (In-filter_intro is_blob b entries m h))

  -- A file of a blob's batch is the blob or its sidecar.
  pub In-blob_batch :
      (b y : CacheEntry)
      → In y (blob_batch b).files
      → (y ≡ b) ⊎ (In y entries × (y.name ≡ b.name ++ dot_ckpt))
  In-blob_batch b y (inl e) = inl e
  In-blob_batch b y (inr m) = elim (Option-cases (sidecar_of b)) [
    | inl n ↦ let k : In y [] = subst (λ o. In y (sidecar_files o)) n m in elim k [ ]
    | inr (s, q) ↦
        let k : In y (s ∷ []) = subst (λ o. In y (sidecar_files o)) q m in
        let e : y ≡ s = elim k [ inl e ↦ e | inr f ↦ absurd f ] in
        let r = find_entry-some entries (b.name ++ dot_ckpt) s q in
        inr (subst (λ z. In z entries) (sym e) r.0, ap (λ z. z.name) e ∙ r.1)
  ]

  pub IsBatch-files : (x : Batch) (y : CacheEntry) → IsBatch x → In y x.files → In y entries
  IsBatch-files x y (junk e i h q) m =
      let k : In y (e ∷ []) = subst (λ z. In y z.files) q m in
      elim k [ inl p ↦ subst (λ z. In z entries) (sym p) i | inr f ↦ absurd f ]
  IsBatch-files x y (blob b i h q) m = elim (In-blob_batch b y (subst (λ z. In y z.files) q m)) [
    | inl p ↦ subst (λ z. In z entries) (sym p) i
    | inr (j, n) ↦ j
  ]

-- In a directory, the batches share no file.
module _ (entries : List CacheEntry) (d : HasDistinctNames entries) where
  entries-Distinct : Distinct entries
  entries-Distinct = Distinct-of_map (λ e. e.name) entries d

  blob_sidecar-ne : (b c : CacheEntry) → is_blob b ≡ true → b.name ≢ c.name ++ dot_ckpt
  blob_sidecar-ne b c h e =
      ground (arith, ap (λ n. ends_with n dot_bin) e, ends_with-bin_of_ckpt c.name)

  blob_batch-own :
      (b c y : CacheEntry)
      → In b entries
      → In c entries
      → is_blob b ≡ true
      → is_blob c ≡ true
      → In y (blob_batch entries b).files
      → In y (blob_batch entries c).files
      → b ≡ c
  blob_batch-own b c y ib ic hb hc mb mc =
      by_files (In-blob_batch entries b y mb) (In-blob_batch entries c y mc)
    where
      by_files :
          (y ≡ b) ⊎ (In y entries × (y.name ≡ b.name ++ dot_ckpt))
          → (y ≡ c) ⊎ (In y entries × (y.name ≡ c.name ++ dot_ckpt))
          → b ≡ c
      by_files (inl p) (inl q) = sym p ∙ q
      by_files (inl p) (inr q) = absurd (blob_sidecar-ne b c hb (ap (λ z. z.name) (sym p) ∙ q.1))
      by_files (inr p) (inl q) = absurd (blob_sidecar-ne c b hc (ap (λ z. z.name) (sym q) ∙ p.1))
      by_files (inr p) (inr q) =
          eq_of_name entries b c d ib ic
            (append_cancel_right b.name c.name dot_ckpt (sym p.1 ∙ q.1))

  junk_blob-own :
      (e b : CacheEntry)
      → In b entries
      → is_junk entries e ≡ true
      → is_blob b ≡ true
      → In e (blob_batch entries b).files
      → ⊥
  junk_blob-own e b ib he hb m = elim (In-blob_batch entries b e m) [
    | inl p ↦ ground (arith, ap (is_junk entries) p, is_junk-blob entries b hb)
    | inr (i, n) ↦ ground (arith, is_junk-sidecar entries b e ib n)
  ]

  singleton : (y e : CacheEntry) → In y (e ∷ []) → y ≡ e
  singleton y e (inl p) = p
  singleton y e (inr f) = absurd f

  -- A file stands in one batch only.
  pub IsBatch-own :
      (x z : Batch) (y : CacheEntry)
      → IsBatch entries x
      → IsBatch entries z
      → In y x.files
      → In y z.files
      → x ≡ z
  IsBatch-own x z y (junk e i h q) (junk f j k r) mx mz =
      let p : y ≡ e = singleton y e (subst (λ b. In y b.files) q mx) in
      let p' : y ≡ f = singleton y f (subst (λ b. In y b.files) r mz) in
      q ∙ (ap junk_batch (sym p ∙ p') ∙ sym r)
  IsBatch-own x z y (junk e i h q) (blob c j k r) mx mz =
      let p : y ≡ e = singleton y e (subst (λ b. In y b.files) q mx) in
      absurd (
        junk_blob-own e c j h k
          (subst (λ v. In v (blob_batch entries c).files) p (subst (λ b. In y b.files) r mz)))
  IsBatch-own x z y (blob c j k r) (junk e i h q) mx mz =
      let p : y ≡ e = singleton y e (subst (λ b. In y b.files) q mz) in
      absurd (
        junk_blob-own e c j h k
          (subst (λ v. In v (blob_batch entries c).files) p (subst (λ b. In y b.files) r mx)))
  IsBatch-own x z y (blob b i h q) (blob c j k r) mx mz =
      q
      ∙ (ap (blob_batch entries) (
            blob_batch-own b c y i j h k (subst (λ v. In y v.files) q mx)
              (subst (λ v. In y v.files) r mz))
          ∙ sym r)

  junk_batches-Distinct : Distinct (map junk_batch (junk_of entries))
  unfolding junk_of
  junk_batches-Distinct =
      Distinct-map junk_batch (junk_of entries) (λ a b _ _ e. ground (arith, ap (λ x. x.files) e))
        (Distinct-sort_by_key _ _ (Distinct-filter (is_junk entries) entries entries-Distinct))

  blob_batches-Distinct : Distinct (blob_batches entries)
  blob_batches-Distinct = Distinct-sort_by_key _ _ (
      Distinct-map (blob_batch entries) (blobs_of entries)
        (λ a b _ _ e. ground (arith, ap (λ x. x.files) e))
        (Distinct-filter is_blob entries entries-Distinct))

  -- No batch is of both kinds.
  pub junk-ne-blob :
      (x : Batch) → In x (map junk_batch (junk_of entries)) → In x (blob_batches entries) → ⊥
  junk-ne-blob x mj mb =
      let (e, i, h, q) = In-junk_batches entries x mj in
      let (b, j, k, r) = In-blob_batches entries x mb in
      let p : junk_batch e ≡ blob_batch entries b = sym q ∙ r in
      junk_blob-own e b j h k (inl (ground (arith, ap (λ z. z.files) p)))

  pub batches-Distinct : Distinct (batches entries)
  batches-Distinct = Distinct-append _ _ junk_batches-Distinct blob_batches-Distinct junk-ne-blob

  pub IsBatch-Distinct : (x : Batch) → IsBatch entries x → Distinct x.files
  IsBatch-Distinct x (junk e i h q) = subst (λ b. Distinct b.files) (sym q) ((λ m. m), tt)
  IsBatch-Distinct x (blob b i h q) =
      subst (λ c. Distinct c.files) (sym q) (by_sidecar (sidecar_of entries b) refl)
    where
      by_sidecar :
          (o : Option CacheEntry) → sidecar_of entries b ≡ o → Distinct (b ∷ sidecar_files o)
      by_sidecar none e = ((λ m. m), tt)
      by_sidecar (some s) e = (
        λ m.
            let r = find_entry-some entries (b.name ++ dot_ckpt) s e in
            blob_sidecar-ne b b h (ap (λ z. z.name) (singleton b s m) ∙ r.1),
        ((λ m. m), tt),
      )

  -- No file is listed twice, and every one is in the directory.
  pub files-Distinct : Distinct (files_of (batches entries))
  files-Distinct =
      Distinct-flat_map (λ b. b.files) (batches entries) batches-Distinct
        (λ x m. IsBatch-Distinct x (In-batches entries x m))
        (λ x z y mx mz. IsBatch-own x z y (In-batches entries x mx) (In-batches entries z mz))

  pub files_In : (y : CacheEntry) → In y (files_of (batches entries)) → In y entries
  files_In y m =
      let (x, i, h) = In-flat_map (λ b. b.files) y (batches entries) m in
      IsBatch-files entries x y (In-batches entries x i) h

  pub bytes_of_files-le : bytes_of (files_of (batches entries)) ≤ bytes_of entries
  bytes_of_files-le = sum_by-le (λ e. e.len) _ _ files-Distinct files_In
