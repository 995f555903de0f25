-- ===== src/Chat/Published.antt =====
-- A publication by `App::save_slot` of src/lib.rs, and the state of a session: its own or another.
use o_llm.Common.{
  ℕ, ◌≡◌, ◌≢◌, sym, ap, subst, ◌∙◌, ◌⊎◌, inl, inr, true, false, Option, some, List, nat_eq,
  nat_eq_iff, Bool-cases,
}
use o_llm.Common.Text.{Text, text_eq, text_eq_iff}
use o_llm.Common.Dict.{id_eq}
use o_llm.Backend.{Backend}
use o_llm.Slots.{mark_clean}
use o_llm.Slots.Views.{hold_of, owner, is_dirty, mark_clean-other}
use o_llm.Publish.{Disk, IsDisk, Router, save_slot}
use o_llm.Publish.Server.{
  IsServer, save_slot-kv, save_slot-other, save_slot-saved, save_slot-failed,
}
use o_llm.Publish.Atomic.{save_slot-Marked}
use o_llm.Chat.State.{IsSaved, Holds, Holds-same, MayGo}
use o_llm.Slots.Owned.{mark_clean-owner}

module _ {W V K : Type 0} (disk : Disk W) (be : Backend W V) (content : Text → W → Option (List ℕ))
    (kv : ℕ → W → K) (encode : K → List ℕ) (lawful : IsDisk disk content)
    (server : IsServer disk be content kv encode) (sig : Text) (v : Text) (k : K) where
  abbrev Held : Router W → Type 0
  Held r = Holds disk be content kv encode lawful server sig v k r

  abbrev Go : ℕ → Router W → Type 0
  Go id r = MayGo disk be content kv encode lawful server sig v k id r

  published-Holds :
      (id : ℕ) (u : Text) (r : Router W)
      → owner id r.slots ≡ some u
      → (save_slot disk be sig id u r).0 ≡ true
      → (save_slot disk be sig id u r).1.slots ≡ mark_clean id r.slots
      → Held r
      → Held (save_slot disk be sig id u r).1 × Go id (save_slot disk be sig id u r).1
  published-Holds id u r own t m (held, where_held) = elim (Bool-cases (text_eq u v)) [
    | inl e ↦
        let same : u ≡ v = (text_eq_iff u v).0 e in
        let saved =
          subst
            (λ x.
              IsSaved disk be content kv encode lawful server sig v k
                (save_slot disk be sig id x r).1.world)
            (sym same)
            (save_slot-saved disk be content kv encode lawful server sig id v r
                (subst (λ x. (save_slot disk be sig id x r).0 ≡ true) same t)
              ∙ ap (λ x. some (encode x))
                  (held id (subst (λ x. owner id r.slots ≡ some x) same own))) in
        ((still, inr saved), λ o. inr saved)
    | inr n ↦
        let ne = λ (q : v ≡ u).
          absurd (let z : true ≡ false = sym ((text_eq_iff u v).1 (sym q)) ∙ n in cc) in
        ((still, elsewhere ne where_held), λ o. absurd (ne (some_inj (sym (was id o) ∙ own))))
  ]
    where
      still :
          (j : ℕ)
          → owner j (save_slot disk be sig id u r).1.slots ≡ some v
          → kv j (save_slot disk be sig id u r).1.world ≡ k
      still j o =
          save_slot-kv disk be content kv encode lawful server sig id j u r
          ∙ held j (sym (mark_clean-owner id j u r.slots own) ∙ (sym (ap (λ g. owner j g) m) ∙ o))

      was :
          (j : ℕ)
          → owner j (save_slot disk be sig id u r).1.slots ≡ some v
          → owner j r.slots ≡ some v
      was j o = sym (ap (λ g. owner j g) m ∙ mark_clean-owner id j u r.slots own) ∙ o

      some_inj : {x y : Text} → some x ≡ some y → x ≡ y
      some_inj q = cc

      elsewhere :
          v ≢ u
          → ((j : ℕ) × (owner j r.slots ≡ some v) × (is_dirty j r.slots ≡ true))
            ⊎ IsSaved disk be content kv encode lawful server sig v k r.world
          → ((j : ℕ) × (owner j (save_slot disk be sig id u r).1.slots ≡ some v)
              × (is_dirty j (save_slot disk be sig id u r).1.slots ≡ true))
            ⊎ IsSaved disk be content kv encode lawful server sig v k
                (save_slot disk be sig id u r).1.world
      elsewhere ne (inr saved) =
          inr (save_slot-other disk be content kv encode lawful server sig id u v r ne ∙ saved)
      elsewhere ne (inl (j, o, d)) = elim (Bool-cases (nat_eq id j)) [
        | inl e ↦
            let p : j ≡ id = sym ((nat_eq_iff id j).0 e) in
            absurd (ne (some_inj (sym (subst (λ i. owner i r.slots ≡ some v) p o) ∙ own)))
        | inr n ↦
            let q = ap (λ g. hold_of j g) m ∙ mark_clean-other id j r.slots n in
            inl (j, ap (λ x. x.0) q ∙ o, ap (λ x. x.1) q ∙ d)
      ]

  pub save_slot-Holds :
      (id : ℕ) (u : Text) (r : Router W)
      → owner id r.slots ≡ some u
      → Held r
      → Held (save_slot disk be sig id u r).1
        × ((save_slot disk be sig id u r).0 ≡ true → Go id (save_slot disk be sig id u r).1)
  save_slot-Holds id u r own h = elim (save_slot-Marked disk be sig id u r) [
    | inl (t, m) ↦ let (h', g) = published-Holds id u r own t m h in (h', λ _. g)
    | inr (f, m) ↦ (
      Holds-same disk be content kv encode lawful server sig v k r (save_slot disk be sig id u r).1
          (λ j. ap (λ g. hold_of j g) m)
          (λ j. save_slot-kv disk be content kv encode lawful server sig id j u r)
          (save_slot-failed disk be content kv encode lawful server sig id u v r f) h,
      λ t. absurd (let z : true ≡ false = sym t ∙ f in cc),
    )
  ]
