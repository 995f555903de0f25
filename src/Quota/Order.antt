-- ===== src/Quota/Order.antt =====
-- In which order `plan_evictions` deletes, and what it leaves.
use mathlib.Core.List.{append_cancel_right}
use o_llm.Common.{
  ℕ, ◌-◌, ◌≤◌, ◌≡◌, refl, sym, ap, subst, ◌∙◌, ◌⊎◌, inl, inr, true, false, some, List, [], ◌∷◌,
  ◌++◌, map, arith, In, All-In, All_intro, In-append, In-append_left, In-append_right,
  In-filter_intro,
}
use o_llm.Common.Text.{Text, ends_with}
use o_llm.Common.InOrder.{InOrder, InOrder-append, InOrder-intro, InOrder-filter, InOrder-split}
use o_llm.Common.Sorting.{IsSorted, sort_by_key-IsSorted}
use o_llm.Quota.{CacheEntry, dot_bin, dot_ckpt, is_junk, is_blob, junk_of, pair_of, plan_evictions}
use o_llm.Quota.Names.{eq_of_name, ends_with-bin_of_ckpt, is_junk-sidecar}
use o_llm.Quota.Batches.{
  Batch, junk_batch, blob_batch, blob_batches, batches, IsBatch, junk, blob, In-batches,
  In-batches_junk, In-batches_blob, In-blob_batch, junk-ne-blob,
}
use o_llm.Quota.Evict.{is_stale}
use o_llm.Quota.Refinement.{IsDirectory}
use o_llm.Quota.Plan.{
  the_plan, taken_batch, In-files, In-names_of_taken, In-files_of_name, taken_of_name,
}

module _ (entries : List CacheEntry) (limit now grace : ℕ) (names : List Text)
    (dir : IsDirectory entries)
    (planned : plan_evictions entries limit now grace ≡ some names) where
  -- Before a blob batch only batches that are no blob or no younger.
  abbrev Before : Batch → Batch → Type 0
  Before x y = In x (blob_batches entries) → In y (blob_batches entries) × (x.mtime ≤ y.mtime)

  batches-InOrder : InOrder Before (batches entries)
  batches-InOrder =
      InOrder-append Before (map junk_batch (junk_of entries)) (blob_batches entries)
        (InOrder-intro Before _ (λ a b ma mb k. absurd (junk-ne-blob entries dir.distinct a ma k)))
        (by_age (blob_batches entries) (λ x m. m) (sort_by_key-IsSorted _ _))
        (λ a b ma mb k. absurd (junk-ne-blob entries dir.distinct a ma k))
    where
      by_age :
          (xs : List Batch)
          → ((x : Batch) → In x xs → In x (blob_batches entries))
          → IsSorted (λ b. b.mtime) xs
          → InOrder Before xs
      by_age [] h s = tt
      by_age (x ∷ xs) h s = (
        All_intro (Before x) xs
            (λ y m _. (h y (inr m), All-In (λ y. x.mtime ≤ y.mtime) y xs s.0 m)),
        by_age xs (λ y m. h y (inr m)) s.1,
      )

  -- A stale batch is in the plan, or behind all that is.
  left_behind :
      (x : Batch)
      → In x (batches entries)
      → is_stale now grace x ≡ true
      → In x (the_plan entries limit now grace names dir planned).shortest.taken
        ⊎ ((y : Batch)
            → In y (the_plan entries limit now grace names dir planned).shortest.taken
            → Before y x)
  left_behind x m h =
      elim (In-append x (the_plan entries limit now grace names dir planned).shortest.taken
        (the_plan entries limit now grace names dir planned).shortest.rest
        (subst (In x) (the_plan entries limit now grace names dir planned).shortest.in_order
          (In-filter_intro (is_stale now grace) x (batches entries) m h))) [
            | inl l ↦ inl l
            | inr r ↦ inr (λ y my.
                InOrder-split Before
                  (the_plan entries limit now grace names dir planned).shortest.taken
                  (the_plan entries limit now grace names dir planned).shortest.rest y x
                  (subst (InOrder Before)
                    (the_plan entries limit now grace names dir planned).shortest.in_order
                    (InOrder-filter Before (is_stale now grace) (batches entries) batches-InOrder))
                  my r)
          ]

  pub In-blob :
      (b : CacheEntry)
      → In b entries
      → is_blob b ≡ true
      → In (blob_batch entries b) (batches entries)
  In-blob b i h =
      In-append_right _ (map junk_batch (junk_of entries)) _ (In-batches_blob entries b i h)

  pub In-junk :
      (e : CacheEntry)
      → In e entries
      → is_junk entries e ≡ true
      → In (junk_batch e) (batches entries)
  In-junk e i h = In-append_left _ _ (blob_batches entries) (In-batches_junk entries e i h)

  taken_blob :
      (c : CacheEntry)
      → In c entries
      → is_blob c ≡ true
      → In c.name names
      → In
          (blob_batch entries c)
          (the_plan entries limit now grace names dir planned).shortest.taken
  taken_blob c ic hc m =
      taken_of_name entries limit now grace names dir planned c (blob_batch entries c) ic
        (blob c ic hc refl) (inl refl) m

  -- Least recently used first: if a blob is deleted, every blob that is kept though its pair is
  -- stale was used no earlier.
  pub lru_order :
      (b c : CacheEntry)
      → In b entries
      → In c entries
      → is_blob b ≡ true
      → is_blob c ≡ true
      → In c.name names
      → (¬ In b.name names)
      → grace ≤ now - (pair_of entries b).mtime
      → (pair_of entries c).mtime ≤ (pair_of entries b).mtime
  unfolding pair_of
  lru_order b c ib ic hb hc m n old =
      elim (left_behind (blob_batch entries b) (In-blob b ib hb) (ground arith)) [
        | inl t ↦ absurd (
            n (
              In-names_of_taken entries limit now grace names dir planned b (blob_batch entries b) t
                (inl refl)))
        | inr after ↦
            (after (blob_batch entries c) (taken_blob c ic hc m)
              (In-batches_blob entries c ic hc)).1
      ]

  -- No blob is deleted while a stale orphan or leftover is kept.
  pub junk_first :
      (e c : CacheEntry)
      → In e entries
      → In c entries
      → is_junk entries e ≡ true
      → is_blob c ≡ true
      → In c.name names
      → grace ≤ now - e.mtime_unix
      → In e.name names
  junk_first e c ie ic he hc m old =
      elim (left_behind (junk_batch e) (In-junk e ie he) (ground arith)) [
        | inl t ↦
            In-names_of_taken entries limit now grace names dir planned e (junk_batch e) t
              (inl refl)
        | inr after ↦ absurd (
            junk-ne-blob entries dir.distinct (junk_batch e) (In-batches_junk entries e ie he)
              (after (blob_batch entries c) (taken_blob c ic hc m)
                (In-batches_blob entries c ic hc)).0)
      ]

  -- A sidecar whose base is there but is no blob (that of a scratch file) is never deleted,
  -- whatever the limit.
  pub scratch_sidecar_kept :
      (e b : CacheEntry)
      → In e entries
      → In b entries
      → is_blob b ≡ false
      → e.name ≡ b.name ++ dot_ckpt
      → ¬ In e.name names
  scratch_sidecar_kept e b ie ib h n m =
      let (x, ix, hx) =
        In-files entries limit now grace names dir planned e
          (In-files_of_name entries limit now grace names dir planned e ie m) in
      by_batch x
        (In-batches entries x (taken_batch entries limit now grace names dir planned x ix).0) hx
    where
      by_batch : (x : Batch) → IsBatch entries x → In e x.files → ⊥
      by_batch x (junk f i j q) hx =
          let k : In e (f ∷ []) = subst (λ b. In e b.files) q hx in
          let r : e ≡ f = elim k [ inl r ↦ r | inr f ↦ absurd f ] in
          ground (arith, is_junk-sidecar entries b e ib n, ap (is_junk entries) r)
      by_batch x (blob c i j q) hx =
          elim (In-blob_batch entries c e (subst (λ z. In e z.files) q hx)) [
            | inl r ↦
                ground (
                  arith,
                  ap is_blob r,
                  ap (λ t. ends_with t dot_bin) n,
                  ends_with-bin_of_ckpt b.name,
                )
            | inr (_, r) ↦ ground (
              arith,
              ap is_blob (
                  eq_of_name entries b c dir.distinct ib i
                    (append_cancel_right b.name c.name dot_ckpt (sym n ∙ r))),
            )
          ]
