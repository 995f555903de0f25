-- ===== src/Seed/Order.antt =====
-- Two admissions of one family of src/seed.rs, of which one has published and the other has failed.
use o_llm.Common.{ℕ, ◌≡◌, refl, ap, ◌∙◌, false, Option, none, some, [], ◌∷◌, nat_eq, arith}
use o_llm.Common.Family.{replace_other}
use o_llm.Common.Text.{Text, text_eq_refl}
use o_llm.Common.Dict.{lookup, insert, name_eq, lookup-insert}
use o_llm.Json.{Json}
use o_llm.Backend.{Backend}
use o_llm.Seed.{
  Bag, BagEntry, cached, failed, Dance, Publisher, mark_cached, mark_failed, set_state, state_of,
}
use o_llm.Seed.Overlap.{Admission, SeedPc, Dancers, caching, failing, seed_step, take_step, overlap}

module _ {V : Type 0} (J : Json V) where
  state_of-insert :
      (key : Text) (e : BagEntry V) (bag : Bag V) → state_of key (insert key e bag) ≡ some e.state
  unfolding state_of
  state_of-insert key e bag = rw (lookup-insert key key e bag, text_eq_refl key) refl

  set_state-failed : (o : Option (BagEntry V)) → (set_state J failed o).state ≡ failed
  set_state-failed none = refl
  set_state-failed (some e) = refl

  state_of-mark_failed :
      (key : Text) (bag : Bag V) → state_of key (mark_failed J key bag) ≡ some failed
  unfolding mark_failed
  state_of-mark_failed key bag =
      state_of-insert key _ bag ∙ ap (λ s. some s) (set_state-failed (lookup key bag))

  lookup-mark_failed :
      (key : Text) (bag : Bag V)
      → lookup key (mark_failed J key bag) ≡ some (set_state J failed (lookup key bag))
  unfolding mark_failed
  lookup-mark_failed key bag =
      rw (lookup-insert key key (set_state J failed (lookup key bag)) bag, text_eq_refl key) refl

  state_of-mark_cached :
      (key : Text) (e : BagEntry V) (bag : Bag V)
      → lookup key bag ≡ some e
      → state_of key (mark_cached key bag) ≡ some cached
  unfolding mark_cached
  state_of-mark_cached key e bag h = rw (h, mark_cached) (state_of-insert key _ bag)

module _ {W V : Type 0} (J : Json V) (be : Backend W V) (pu : Publisher W)
    (who : ℕ → Admission V) where
  bag_of-take_step :
      (i : ℕ) (pc : SeedPc V) (s : Dancers W V)
      → s.pcs i ≡ pc
      → (take_step J be pu who i s).dance ≡ (seed_step J be pu (who i) pc s.dance).1
  unfolding take_step
  bag_of-take_step i pc s h = rw h refl

  pcs-take_step :
      (i j : ℕ) (s : Dancers W V) → nat_eq i j ≡ false → (take_step J be pu who i s).pcs j ≡ s.pcs j
  unfolding take_step
  pcs-take_step i j s n = replace_other s.pcs i j _ n

  -- Of two admissions of one family, of which one is about to mark it cached and the other to mark it
  -- failed, the last one decides.
  pub overlap-order :
      (i j : ℕ) (s : Dancers W V)
      → nat_eq i j ≡ false
      → (who i).key ≡ (who j).key
      → s.pcs i ≡ caching
      → s.pcs j ≡ failing
      → (state_of (who i).key (overlap J be pu who (i ∷ j ∷ []) s).dance.bag ≡ some failed)
        × (state_of (who i).key (overlap J be pu who (j ∷ i ∷ []) s).dance.bag ≡ some cached)
  unfolding overlap seed_step
  overlap-order i j s n k p q =
      let first = take_step J be pu who i s in
      let second = take_step J be pu who j s in
      let dropped = bag_of-take_step j failing s q in
      let found =
        ap (λ (d : Dance W V). lookup (who i).key d.bag) dropped
        ∙ (ap (λ key. lookup key (mark_failed J (who j).key s.dance.bag)) k
            ∙ lookup-mark_failed J (who j).key s.dance.bag) in
      (
        ap (λ (d : Dance W V). state_of (who i).key d.bag)
              (bag_of-take_step j failing first (pcs-take_step i j s n ∙ q))
            ∙ (ap (λ key. state_of key (mark_failed J (who j).key first.dance.bag)) k
                ∙ state_of-mark_failed J (who j).key first.dance.bag),
        ap (λ (d : Dance W V). state_of (who i).key d.bag)
              (bag_of-take_step i caching second (pcs-take_step j i s (ground arith) ∙ p))
            ∙ state_of-mark_cached J (who i).key _ second.dance.bag found,
      )
