-- ===== src/Slots/Owned.antt =====
-- Which slot is a session's, and how `pick_slot` of src/lib.rs finds it in the registry.
use o_llm.Common.{
  ℕ, ◌≡◌, ◌≢◌, refl, sym, ap, subst, ◌∙◌, inl, inr, Bool, true, false, Option, none, some, [], ◌∷◌,
  nat_eq, nat_eq_iff, Bool-cases, if◌then◌else◌, get_or,
}
use o_llm.Common.Text.{Text, text_eq_refl}
use o_llm.Common.Dict.{lookup, id_eq}
use o_llm.Slots.{Slots, SlotInfo, mark_clean, owned_slot, is_session, entry_of, fresh}
use o_llm.Slots.Views.{hold_of, owner, is_dirty, mark_clean-other, mark_clean-owned}
use o_llm.Slots.Scans.{owned_slot-In}
use o_llm.Slots.Distinct.{IsMap, lookup-In}

pub owned_slot-owner :
    (session : Text) (g : Slots) (id : ℕ)
    → IsMap g
    → owned_slot session g ≡ some id
    → owner id g ≡ some session
unfolding hold_of entry_of
owned_slot-owner session g id map e =
    let (s, m, o) = owned_slot-In session g id e in
    ap (λ (x : Option SlotInfo). (get_or x fresh).session) (lookup-In id s g map m) ∙ o

-- A slot that is marked clean stays its session's.
pub mark_clean-owner :
    (id j : ℕ) (u : Text) (g : Slots) → owner id g ≡ some u → owner j (mark_clean id g) ≡ owner j g
mark_clean-owner id j u g own = elim (Bool-cases (nat_eq id j)) [
  | inr n ↦ ap (λ x. x.0) (mark_clean-other id j g n)
  | inl e ↦
      subst (λ i. owner i (mark_clean id g) ≡ owner i g) ((nat_eq_iff id j).0 e)
        (ap (λ x. x.0) (mark_clean-owned id u (is_dirty id g) g (ap (λ o. (o, is_dirty id g)) own))
          ∙ sym own)
]

owner-cons :
    (j i : ℕ) (s : SlotInfo) (g : Slots)
    → owner j ((i, s) ∷ g) ≡ (if nat_eq i j then s.session else owner j g)
unfolding hold_of entry_of lookup
owner-cons j i s g = by_test (nat_eq i j)
  where
    by_test :
        (b : Bool)
        → (get_or (if b then some s else lookup j g) fresh).session
          ≡ (if b then s.session else owner j g)
    by_test true = refl
    by_test false = refl

-- A session that `pick_slot` finds no slot of has none.
pub owned_slot-none :
    (session : Text) (g : Slots) (j : ℕ) → owned_slot session g ≡ none → owner j g ≢ some session
unfolding owned_slot hold_of entry_of lookup is_session
owned_slot-none session [] j e o = absurd cc
owned_slot-none session ((i, s) ∷ g) j e o = elim (Bool-cases (is_session session s.session)) [
  | inl t ↦ let z : some i ≡ none = rw (t, owned_slot) at e in absurd cc
  | inr f ↦ elim (Bool-cases (nat_eq i j)) [
    | inl same ↦
        let q : s.session ≡ some session = sym (rw same at (owner-cons j i s g)) ∙ o in
        let z : true ≡ false = sym (own_session session) ∙ (ap (is_session session) (sym q) ∙ f) in
        absurd cc
    | inr other ↦
        owned_slot-none session g j (rw (f, owned_slot) at e)
          (sym (rw other at (owner-cons j i s g)) ∙ o)
  ]
]
  where
    own_session : (t : Text) → is_session t (some t) ≡ true
    own_session t = text_eq_refl t
