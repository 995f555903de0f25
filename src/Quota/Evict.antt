-- ===== src/Quota/Evict.antt =====
-- The planner without machine words: one loop over the batches, and what it deletes. This is the
-- specification of `plan_evictions`.
use mathlib.Core.List.{append-nil, append_assoc}
use o_llm.Common.{
  ℕ, ◌-◌, ◌≤◌, ◌<◌, ◌≡◌, refl, sym, ap, subst, ◌∙◌, ◌⊎◌, inl, inr, Bool, not, List, [], ◌∷◌, ◌++◌,
  arith, filter, leb, ltb, if◌then◌else◌, Bool-cases,
}
use o_llm.Quota.{CacheEntry}
use o_llm.Quota.Batches.{Batch, bytes_of, files_of}

-- Not touched within the grace period.
abbrev pub is_stale : ℕ → ℕ → Batch → Bool
is_stale now grace b = not (ltb (now - b.mtime) grace)

module _ (limit now grace total : ℕ) where
  -- Batch by batch, until the usage is down to the limit. The files to delete, in order.
  unfoldable pub evict : List Batch → List CacheEntry → List CacheEntry
  evict [] done = done
  evict (b ∷ bs) done =
      let skipped = evict bs done in
      let deleted = evict bs (done ++ b.files) in
      if leb (total - bytes_of done) limit
      then done
      else if ltb (now - b.mtime) grace
      then skipped
      else deleted

  pub evict_stop :
      (bs : List Batch) (done : List CacheEntry)
      → total - bytes_of done ≤ limit
      → evict bs done ≡ done
  unfolding evict
  evict_stop [] done h = refl
  evict_stop (b ∷ bs) done h = ground arith

  pub evict-append :
      (xs ys : List Batch) (done : List CacheEntry)
      → evict (xs ++ ys) done ≡ evict ys (evict xs done)
  unfolding evict
  evict-append [] ys done = refl
  evict-append (x ∷ xs) ys done =
      ground
        (arith, evict_stop ys done, evict-append xs ys done, evict-append xs ys (done ++ x.files))

-- `out` is `done` and the files of the shortest part of the candidates, from the left, after
-- which the usage is down to the limit, or of all of them.
pub record IsShortest (limit total : ℕ) (candidates : List Batch) (done out : List CacheEntry)
    : Type 0 where
  pub taken : List Batch
  pub rest : List Batch
  pub in_order : candidates ≡ taken ++ rest
  pub deletes : out ≡ done ++ files_of taken
  pub enough : (rest ≡ []) ⊎ (total - bytes_of out ≤ limit)
  pub needed :
      (init : List Batch) (b : Batch) (more : List Batch)
      → taken ≡ init ++ (b ∷ more)
      → limit < total - bytes_of (done ++ files_of init)

module _ (limit now grace total : ℕ) where
  nothing_taken : {A : Type 0} (init : List A) (b : A) (more : List A) → [] ≡ init ++ (b ∷ more) → ⊥
  nothing_taken [] b more e = cc
  nothing_taken (c ∷ init) b more e = cc

  stopped :
      (candidates : List Batch) (done : List CacheEntry)
      → (candidates ≡ []) ⊎ (total - bytes_of done ≤ limit)
      → IsShortest limit total candidates done done
  stopped candidates done h = record {
    taken = [];
    rest = candidates;
    in_order = refl;
    deletes = sym (append-nil done);
    enough = h;
    needed = λ init b more e. absurd (nothing_taken init b more e);
  }

  more_taken :
      (b : Batch) (candidates : List Batch) (done out : List CacheEntry)
      → limit < total - bytes_of done
      → IsShortest limit total candidates (done ++ b.files) out
      → IsShortest limit total (b ∷ candidates) done out
  more_taken b candidates done out h s = record {
    taken = b ∷ s.taken;
    rest = s.rest;
    in_order = ap (◌∷◌ b) s.in_order;
    deletes = s.deletes ∙ append_assoc done b.files (files_of s.taken);
    enough = s.enough;
    needed = needed_after;
  }
    where
      needed_after :
          (init : List Batch) (c : Batch) (more : List Batch)
          → b ∷ s.taken ≡ init ++ (c ∷ more)
          → limit < total - bytes_of (done ++ files_of init)
      needed_after [] c more e = subst (λ d. limit < total - bytes_of d) (sym (append-nil done)) h
      needed_after (a ∷ init) c more e =
          let p : b ≡ a = ground arith in
          subst (λ x. limit < total - bytes_of (done ++ (x.files ++ files_of init))) p
            (subst (λ d. limit < total - bytes_of d) (append_assoc done b.files (files_of init))
              (s.needed init c more (ground arith)))

  pub evict-IsShortest :
      (bs : List Batch) (done : List CacheEntry)
      → IsShortest limit total
          (filter (is_stale now grace) bs)
          done
          (evict limit now grace total bs done)
  unfolding evict
  evict-IsShortest [] done = stopped [] done (inl refl)
  evict-IsShortest (b ∷ bs) done = elim (Bool-cases (leb (total - bytes_of done) limit)) [
    | inl e ↦ rw e (stopped _ done (inr (ground arith)))
    | inr e ↦ elim (Bool-cases (ltb (now - b.mtime) grace)) [
      | inl f ↦ rw (e, f) (evict-IsShortest bs done)
      | inr f ↦
          rw (e, f) (more_taken b _ done _ (ground arith) (evict-IsShortest bs (done ++ b.files)))
    ]
  ]
