-- ===== src/Seed/Cached.antt =====
-- Which families are marked cached when admissions of src/seed.rs overlap.
use o_llm.Common.{
  ℕ, ◌≡◌, refl, sym, subst, ◌∙◌, ◌⊎◌, inl, inr, Bool, true, false, Option, none, some, List, [],
  ◌∷◌, Bool-cases, Option-cases, nat_eq, nat_eq_iff,
}
use o_llm.Common.Family.{replace, replace_same, replace_other}
use o_llm.Common.Text.{Text, text_eq, text_eq_iff}
use o_llm.Common.Dict.{lookup, insert, name_eq, lookup-insert}
use o_llm.Json.{Json}
use o_llm.Backend.{Backend}
use o_llm.Seed.{
  Bag, BagEntry, BagState, cached, uncached, failed, Dance, Publisher, seeded, is_cached,
  open_entry, mark_cached, mark_failed, set_state, retried,
}
use o_llm.Seed.Overlap.{
  Admission, SeedPc, Dancers, ended, gating, looking, restoring, opening, prefilling, confirming,
  saving, publishing, caching, failing, seed_step, take_step, overlap,
}

abbrev pub IsCached : {W V : Type 0} → Text → Dance W V → Type 0
IsCached k d = is_cached (lookup k d.bag) ≡ true

module _ {V : Type 0} (J : Json V) where
  abbrev is_marked : BagState → Bool
  is_marked cached = true
  is_marked uncached = false
  is_marked failed = false

  retried-cached : (s : BagState) → is_marked (retried J s) ≡ true → is_marked s ≡ true
  retried-cached cached h = refl
  retried-cached uncached h = h
  retried-cached failed h = h

  set_state-cached : (o : Option (BagEntry V)) → is_cached (some (set_state J failed o)) ≡ false
  set_state-cached none = refl
  set_state-cached (some e) = refl

  -- Neither the first section of the dance nor a failure makes a family cached.
  open_entry-cached :
      (messages : V) (o : Option (BagEntry V))
      → is_cached (some (open_entry J messages o)) ≡ true
      → is_cached o ≡ true
  unfolding open_entry
  open_entry-cached messages none h = absurd cc
  open_entry-cached messages (some e) h = retried-cached e.state h

  insert-cached :
      (key k : Text) (e : BagEntry V) (bag : Bag V)
      → (is_cached (some e) ≡ true → is_cached (lookup key bag) ≡ true)
      → is_cached (lookup k (insert key e bag)) ≡ true
      → is_cached (lookup k bag) ≡ true
  insert-cached key k e bag keep h = elim (Bool-cases (text_eq key k)) [
    | inl s ↦
        subst (λ j. is_cached (lookup j bag) ≡ true) ((text_eq_iff key k).0 s)
          (keep (rw (lookup-insert key k e bag, s) at h))
    | inr n ↦ rw (lookup-insert key k e bag, n) at h
  ]

  mark_failed-cached :
      (key k : Text) (bag : Bag V)
      → is_cached (lookup k (mark_failed J key bag)) ≡ true
      → is_cached (lookup k bag) ≡ true
  unfolding mark_failed
  mark_failed-cached key k bag h =
      insert-cached key k _ bag
        (λ q. absurd (let z : false ≡ true = sym (set_state-cached (lookup key bag)) ∙ q in cc)) h

  mark_cached-cached :
      (key k : Text) (bag : Bag V)
      → is_cached (lookup k (mark_cached key bag)) ≡ true
      → (is_cached (lookup k bag) ≡ true) ⊎ (key ≡ k)
  unfolding mark_cached
  mark_cached-cached key k bag h = elim (Bool-cases (text_eq key k)) [
    | inl s ↦ inr ((text_eq_iff key k).0 s)
    | inr n ↦ inl (elim (Option-cases (lookup key bag)) [
      | inl m ↦ rw (m, mark_cached) at h
      | inr (e, m) ↦
          rw (m, mark_cached, lookup-insert key k (record e { state = cached }) bag, n) at h
    ])
  ]

module _ {W V : Type 0} (J : Json V) (be : Backend W V) (pu : Publisher W) where
  -- One step marks a family cached only as the end of a dance of that family.
  seed_step-IsCached :
      (a : Admission V) (k : Text) (pc : SeedPc V) (d : Dance W V)
      → IsCached k (seed_step J be pu a pc d).1
      → IsCached k d ⊎ (a.key ≡ k) × ((seed_step J be pu a pc d).0 ≡ ended seeded)
  unfolding seed_step
  seed_step-IsCached a k gating d h = inl h
  seed_step-IsCached a k looking d h = inl h
  seed_step-IsCached a k restoring d h = inl h
  seed_step-IsCached a k opening d h = inl (
      insert-cached J a.key k (open_entry J a.messages (lookup a.key d.bag)) d.bag
        (open_entry-cached J a.messages (lookup a.key d.bag)) h)
  seed_step-IsCached a k (prefilling system) d h = inl h
  seed_step-IsCached a k confirming d h = inl h
  seed_step-IsCached a k saving d h = inl h
  seed_step-IsCached a k publishing d h = inl h
  seed_step-IsCached a k caching d h = elim (mark_cached-cached J a.key k d.bag h) [
    | inl c ↦ inl c
    | inr e ↦ inr (e, refl)
  ]
  seed_step-IsCached a k failing d h = inl (mark_failed-cached J a.key k d.bag h)
  seed_step-IsCached a k (ended r) d h = inl h

  module _ (who : ℕ → Admission V) where
    -- Some admission of the family has seeded it.
    abbrev pub HasSeeded : Text → Dancers W V → Type 0
    HasSeeded k s = (i : ℕ) × ((who i).key ≡ k) × (s.pcs i ≡ ended seeded)

    ended_stays :
        (i : ℕ) (s : Dancers W V)
        → s.pcs i ≡ ended seeded
        → (seed_step J be pu (who i) (s.pcs i) s.dance).0 ≡ ended seeded
    unfolding seed_step
    ended_stays i s p = rw (p, seed_step) refl

    take_step-HasSeeded :
        (j : ℕ) (k : Text) (s : Dancers W V)
        → HasSeeded k s
        → HasSeeded k (take_step J be pu who j s)
    unfolding take_step
    take_step-HasSeeded j k s (i, e, p) = elim (Bool-cases (nat_eq j i)) [
      | inl same ↦
          let q : j ≡ i = (nat_eq_iff j i).0 same in
          (
            i,
            e,
            subst
                (λ n.
                  replace s.pcs n (seed_step J be pu (who n) (s.pcs n) s.dance).0 i ≡ ended seeded)
                (sym q) (replace_same s.pcs i _ ∙ ended_stays i s p),
          )
      | inr other ↦ (i, e, replace_other s.pcs j i _ other ∙ p)
    ]

    take_step-IsCached :
        (j : ℕ) (k : Text) (s : Dancers W V)
        → IsCached k (take_step J be pu who j s).dance
        → IsCached k s.dance ⊎ HasSeeded k (take_step J be pu who j s)
    unfolding take_step
    take_step-IsCached j k s h = elim (seed_step-IsCached (who j) k (s.pcs j) s.dance h) [
      | inl c ↦ inl c
      | inr (e, p) ↦ inr (j, e, replace_same s.pcs j _ ∙ p)
    ]

    overlap-HasSeeded :
        (order : List ℕ) (k : Text) (s : Dancers W V)
        → HasSeeded k s
        → HasSeeded k (overlap J be pu who order s)
    unfolding overlap
    overlap-HasSeeded [] k s h = h
    overlap-HasSeeded (j ∷ order) k s h =
        overlap-HasSeeded order k (take_step J be pu who j s) (take_step-HasSeeded j k s h)

    -- However admissions overlap: a family is marked cached after their steps only if it was
    -- before or if one of the admissions has seeded it.
    pub overlap-IsCached :
        (order : List ℕ) (k : Text) (s : Dancers W V)
        → IsCached k (overlap J be pu who order s).dance
        → IsCached k s.dance ⊎ HasSeeded k (overlap J be pu who order s)
    unfolding overlap
    overlap-IsCached [] k s h = inl h
    overlap-IsCached (j ∷ order) k s h =
        elim (overlap-IsCached order k (take_step J be pu who j s) h) [
          | inr r ↦ inr r
          | inl c ↦ elim (take_step-IsCached j k s c) [
            | inl b ↦ inl b
            | inr r ↦ inr (overlap-HasSeeded order k (take_step J be pu who j s) r)
          ]
        ]
