-- ===== src/Chat/State.antt =====
-- Where the state of a session is: in its slots, or in its blob, while other sessions are admitted
-- (the admission in `chat_completions` of src/lib.rs).
use o_llm.Common.{
  ℕ, ◌≡◌, ◌≢◌, refl, sym, ap, subst, ◌∙◌, ◌⊎◌, inl, inr, Bool, true, false, Option, some, List,
  nat_eq, nat_eq_iff, Bool-cases, if◌then◌else◌,
}
use o_llm.Common.Text.{Text}
use o_llm.Key.{blob_name}
use o_llm.Backend.{Backend}
use o_llm.Slots.Views.{hold_of, owner, is_dirty, Agree}
use o_llm.Publish.{Disk, IsDisk, Router}
use o_llm.Publish.Server.{IsServer, restore_slot-other, restore_slot-content}
use o_llm.Chat.Steer.{take_slot-hold}
use o_llm.Chat.{restore_if, take_slot}

module _ {W V K : Type 0} (disk : Disk W) (be : Backend W V) (content : Text → W → Option (List ℕ))
    (kv : ℕ → W → K) (encode : K → List ℕ) (lawful : IsDisk disk content)
    (server : IsServer disk be content kv encode) (sig : Text) where
  abbrev pub IsSaved : Text → K → W → Type 0
  IsSaved v k w = content (blob_name v sig) w ≡ some (encode k)

  -- The state of session `v` is `k`: in every slot that is the session's, and in a slot whose
  -- state is not published or in the session's blob.
  abbrev pub Holds : Text → K → Router W → Type 0
  Holds v k r =
      ((j : ℕ) → owner j r.slots ≡ some v → kv j r.world ≡ k)
      × (((j : ℕ) × (owner j r.slots ≡ some v) × (is_dirty j r.slots ≡ true)) ⊎ IsSaved v k r.world)

  pub Holds-same :
      (v : Text) (k : K) (r r' : Router W)
      → Agree r.slots r'.slots
      → ((j : ℕ) → kv j r'.world ≡ kv j r.world)
      → content (blob_name v sig) r'.world ≡ content (blob_name v sig) r.world
      → Holds v k r
      → Holds v k r'
  Holds-same v k r r' agree same blob (held, inl (j, o, d)) = (
    λ i q. same i ∙ held i (sym (ap (λ x. x.0) (agree i)) ∙ q),
    inl (j, ap (λ x. x.0) (agree j) ∙ o, ap (λ x. x.1) (agree j) ∙ d),
  )
  Holds-same v k r r' agree same blob (held, inr saved) =
      (λ i q. same i ∙ held i (sym (ap (λ x. x.0) (agree i)) ∙ q), inr (blob ∙ saved))

  -- A change at one slot, which is not the session's before or after it.
  pub Holds-elsewhere :
      (v : Text) (k : K) (id : ℕ) (r r' : Router W)
      → owner id r.slots ≢ some v
      → owner id r'.slots ≢ some v
      → ((j : ℕ) → nat_eq id j ≡ false → hold_of j r'.slots ≡ hold_of j r.slots)
      → ((j : ℕ) → nat_eq id j ≡ false → kv j r'.world ≡ kv j r.world)
      → content (blob_name v sig) r'.world ≡ content (blob_name v sig) r.world
      → Holds v k r
      → Holds v k r'
  Holds-elsewhere v k id r r' before after same kvs blob (held, where_held) =
      (still, kept where_held)
    where
      other :
          (j : ℕ) (x : Router W)
          → owner id x.slots ≢ some v
          → owner j x.slots ≡ some v
          → nat_eq id j ≡ false
      other j x not_here o = elim (Bool-cases (nat_eq id j)) [
        | inl e ↦
            absurd
              (not_here (subst (λ i. owner i x.slots ≡ some v) (sym ((nat_eq_iff id j).0 e)) o))
        | inr n ↦ n
      ]

      still : (j : ℕ) → owner j r'.slots ≡ some v → kv j r'.world ≡ k
      still j o =
          let n = other j r' after o in kvs j n ∙ held j (sym (ap (λ x. x.0) (same j n)) ∙ o)

      kept :
          ((j : ℕ) × (owner j r.slots ≡ some v) × (is_dirty j r.slots ≡ true)) ⊎ IsSaved v k r.world
          → ((j : ℕ) × (owner j r'.slots ≡ some v) × (is_dirty j r'.slots ≡ true))
            ⊎ IsSaved v k r'.world
      kept (inr saved) = inr (blob ∙ saved)
      kept (inl (j, o, d)) =
          let n = other j r before o in
          inl (j, ap (λ x. x.0) (same j n) ∙ o, ap (λ x. x.1) (same j n) ∙ d)

  -- A slot may be given away if it is not the session's, or if its state is published.
  abbrev pub MayGo : Text → K → ℕ → Router W → Type 0
  MayGo v k id r = owner id r.slots ≡ some v → (is_dirty id r.slots ≡ false) ⊎ IsSaved v k r.world

  restore_if-content :
      (wanted : Bool) (id : ℕ) (b m : Text) (r : Router W)
      → content m (restore_if disk be sig wanted id b r).world ≡ content m r.world
  restore_if-content true id b m r =
      restore_slot-content disk be content kv encode lawful server sig id b m r
  restore_if-content false id b m r = refl

  restore_if-other :
      (wanted : Bool) (id j : ℕ) (b : Text) (r : Router W)
      → nat_eq id j ≡ false
      → kv j (restore_if disk be sig wanted id b r).world ≡ kv j r.world
  restore_if-other true id j b r n =
      restore_slot-other disk be content kv encode lawful server sig id j b r n
  restore_if-other false id j b r n = refl

  -- Another session gets the slot.
  pub take_slot-Holds :
      (v b : Text) (k : K) (wanted : Bool) (id : ℕ) (r : Router W)
      → b ≢ v
      → Holds v k r
      → MayGo v k id r
      → Holds v k (take_slot disk be sig id b (restore_if disk be sig wanted id b r)).1
  take_slot-Holds v b k wanted id r ne (held, where_held) may = (still, kept where_held)
    where
      r' : Router W
      r' = (take_slot disk be sig id b (restore_if disk be sig wanted id b r)).1

      now :
          (j : ℕ) → hold_of j r'.slots ≡ (if nat_eq id j then (some b, true) else hold_of j r.slots)
      now j = take_slot-hold disk be sig wanted id b r j

      -- A slot that is the session's afterwards is another one, and as before.
      elsewhere :
          (j : ℕ) → owner j r'.slots ≡ some v → (nat_eq id j ≡ false) × (owner j r.slots ≡ some v)
      elsewhere j o = elim (Bool-cases (nat_eq id j)) [
        | inl e ↦
            let q : some b ≡ some v = sym (ap (λ x. x.0) (rw e at (now j))) ∙ o in absurd (ne cc)
        | inr n ↦ (n, sym (ap (λ x. x.0) (rw n at (now j))) ∙ o)
      ]

      still : (j : ℕ) → owner j r'.slots ≡ some v → kv j r'.world ≡ k
      still j o = let (n, q) = elsewhere j o in restore_if-other wanted id j b r n ∙ held j q

      blob : content (blob_name v sig) r'.world ≡ content (blob_name v sig) r.world
      blob = restore_if-content wanted id b (blob_name v sig) r

      kept :
          ((j : ℕ) × (owner j r.slots ≡ some v) × (is_dirty j r.slots ≡ true)) ⊎ IsSaved v k r.world
          → ((j : ℕ) × (owner j r'.slots ≡ some v) × (is_dirty j r'.slots ≡ true))
            ⊎ IsSaved v k r'.world
      kept (inr saved) = inr (blob ∙ saved)
      kept (inl (j, o, d)) = elim (Bool-cases (nat_eq id j)) [
        | inr n ↦ inl (j, ap (λ x. x.0) (rw n at (now j)) ∙ o, ap (λ x. x.1) (rw n at (now j)) ∙ d)
        | inl e ↦
            let p : id ≡ j = (nat_eq_iff id j).0 e in
            elim (may (subst (λ i. owner i r.slots ≡ some v) (sym p) o)) [
              | inr saved ↦ inr (blob ∙ saved)
              | inl clean ↦ absurd (
                  let z : true ≡ false = sym d ∙ (ap (λ i. is_dirty i r.slots) (sym p) ∙ clean) in
                  cc)
            ]
      ]
