-- ===== src/Chat/Apart.antt =====
-- Whole turns of other sessions (`chat_completions` of src/lib.rs) and the state of a session.
use o_llm.Common.{
  ℕ, ◌≡◌, ◌≢◌, refl, sym, ap, subst, ◌∙◌, inl, inr, false, Option, none, some, List, nat_eq,
  nat_eq_iff, Bool-cases, get_or,
}
use o_llm.Common.Text.{Text, codes}
use o_llm.Json.{Json}
use o_llm.Key.{blob_name}
use o_llm.Backend.{Backend}
use o_llm.Slots.{Slots, claim, abandon}
use o_llm.Slots.Views.{
  hold_of, owner, is_dirty, Agree, claim-other, claim-owned, abandon-other, hold_of-abandon,
}
use o_llm.Slots.Distinct.{IsMap, claim-IsMap, abandon-IsMap}
use o_llm.Publish.{Disk, IsDisk, Router, save_slot}
use o_llm.Publish.Server.{IsServer}
use o_llm.Chat.State.{Holds, Holds-same, Holds-elsewhere}
use o_llm.Chat.Published.{save_slot-Holds}
use o_llm.Chat.Others.{admission-Holds}
use o_llm.Chat.Maps.{save_slot-IsMap, admission-IsMap}
use o_llm.Chat.Given.{admission-Given}
use o_llm.Chat.Ends.{after_chat-Ends}
use o_llm.Chat.{
  Cache, Config, Libraries, finish, leave, run_turn, admission, forwarded, bool_of, enforce,
}

-- The session claims a slot that it has.
pub claim-Agree : (b : Text) (id : ℕ) (g : Slots) → owner id g ≡ some b → Agree g (claim id b g)
claim-Agree b id g own j = elim (Bool-cases (nat_eq id j)) [
  | inr n ↦ claim-other id j b g n
  | inl e ↦
      subst (λ i. hold_of i (claim id b g) ≡ hold_of i g) ((nat_eq_iff id j).0 e)
        (let here : hold_of id g ≡ (some b, is_dirty id g) = ap (λ o. (o, is_dirty id g)) own in
          claim-owned id b (is_dirty id g) g here ∙ sym here)
]

-- A turn that is steered to a slot writes that slot only and no files of the cache; the quota
-- spares the session's blob, and does nothing to the slots.
pub record IsApart {W V K : Type 0} (J : Json V) (cache : Cache W) (be : Backend W V) (cfg : Config)
    (content : Text → W → Option (List ℕ)) (kv : ℕ → W → K) (v : Text) : Type 0 where
  pub chat-content :
      (body : V) (w : W)
      → content (blob_name v cfg.backend_sig) (be.chat body w).1
        ≡ content (blob_name v cfg.backend_sig) w
  pub chat-kv :
      (parsed : V) (id j : ℕ) (w : W)
      → nat_eq id j ≡ false
      → kv j (be.chat (J.set parsed (codes "id_slot") (J.number id)) w).1 ≡ kv j w
  pub enforce-content :
      (w : W)
      → content (blob_name v cfg.backend_sig) (enforce cache cfg.cache_limit_mb w)
        ≡ content (blob_name v cfg.backend_sig) w
  pub enforce-kv : (j : ℕ) (w : W) → kv j (enforce cache cfg.cache_limit_mb w) ≡ kv j w

module _ {W V K : Type 0} (J : Json V) (lib : Libraries V) (disk : Disk W) (cache : Cache W)
    (be : Backend W V) (cfg : Config) (content : Text → W → Option (List ℕ)) (kv : ℕ → W → K)
    (encode : K → List ℕ) (lawful : IsDisk disk content)
    (server : IsServer disk be content kv encode) (v : Text) (k : K) where
  abbrev Held : Router W → Type 0
  Held r = Holds disk be content kv encode lawful server cfg.backend_sig v k r

  -- What is kept from turn to turn.
  abbrev Kept : Router W → Type 0
  Kept r = Held r × IsMap r.slots

  module _ (apart : IsApart J cache be cfg content kv v) (b : Text) where
    pub finish-Kept :
        (id : ℕ) (r : Router W)
        → owner id r.slots ≡ some b
        → Kept r
        → Kept (finish J lib disk cache be cfg (some id) b r)
    unfolding finish
    finish-Kept id r own (h, map) = (
      Holds-same disk be content kv encode lawful server cfg.backend_sig v k saved
          (record saved { world = enforce cache cfg.cache_limit_mb saved.world }) (λ j. refl)
          (λ j. apart.enforce-kv j saved.world) (apart.enforce-content saved.world)
          (save_slot-Holds disk be content kv encode lawful server cfg.backend_sig v k id b claimed
            (ap (λ x. x.0) (claim-Agree b id r.slots own id) ∙ own)
            (Holds-same disk be content kv encode lawful server cfg.backend_sig v k r claimed
              (claim-Agree b id r.slots own) (λ j. refl) refl h)).0,
      save_slot-IsMap disk be cfg.backend_sig id b claimed (claim-IsMap id b r.slots map),
    )
      where
        claimed : Router W
        claimed = record r { slots = claim id b r.slots }

        saved : Router W
        saved = (save_slot disk be cfg.backend_sig id b claimed).1

  module _ (apart : IsApart J cache be cfg content kv v) (b : Text) (other : b ≢ v) where
    some_inj : {x y : Text} → some x ≡ some y → x ≡ y
    some_inj q = cc

    not_here : (id : ℕ) (r : Router W) → owner id r.slots ≡ some b → owner id r.slots ≢ some v
    not_here id r own o = other (some_inj (sym own ∙ o))

    leave-Kept :
        (id : ℕ) (r : Router W)
        → owner id r.slots ≡ some b
        → Kept r
        → Kept (leave J lib disk cache be cfg (some id) r)
    unfolding leave
    leave-Kept id r own (h, map) = (
      Holds-elsewhere disk be content kv encode lawful server cfg.backend_sig v k id r
          (record r { slots = abandon id r.slots }) (not_here id r own)
          (λ o.
            let z : none ≡ some v = sym (ap (λ x. x.0) (hold_of-abandon id r.slots)) ∙ o in
            absurd cc)
          (λ j n. abandon-other id j r.slots n) (λ j n. refl) refl h,
      abandon-IsMap id r.slots map,
    )

    -- The turn from its slot on.
    steered-Kept :
        (takes : ℕ) (parsed : V) (id : ℕ) (r : Router W)
        → owner id r.slots ≡ some b
        → Kept r
        → Kept (run_turn J lib disk cache be cfg takes b parsed (some id, r)).1
    unfolding run_turn forwarded
    steered-Kept takes parsed id r own (h, map) =
        after_chat-Ends J lib disk cache be cfg Kept
          (get_or (bool_of J lib disk cache be cfg (J.get parsed (codes "stream"))) false) takes
          (some id) b r.slots (be.chat body r.world)
          (finish-Kept apart b id answered own kept, leave-Kept id answered own kept, kept)
      where
        body : V
        body = J.set parsed (codes "id_slot") (J.number id)

        answered : Router W
        answered = record { slots = r.slots; world = (be.chat body r.world).1 }

        kept : Kept answered
        kept = (
          Holds-elsewhere disk be content kv encode lawful server cfg.backend_sig v k id r answered
              (not_here id r own) (not_here id r own) (λ j n. refl)
              (λ j n. apart.chat-kv parsed id j r.world n) (apart.chat-content body r.world) h,
          map,
        )

    -- A whole turn that is steered.
    pub turn-Kept :
        (takes : ℕ) (parsed : V) (id : ℕ) (r : Router W)
        → (admission disk be cfg.backend_sig b r).0 ≡ some id
        → Kept r
        → Kept
            (run_turn J lib disk cache be cfg takes b parsed
              (admission disk be cfg.backend_sig b r)).1
    turn-Kept takes parsed id r e (h, map) =
        subst (λ o. Kept (run_turn J lib disk cache be cfg takes b parsed (o, admitted)).1) (sym e)
          (steered-Kept takes parsed id admitted
            (ap (λ x. x.0) (admission-Given disk be cfg.backend_sig b r id e))
            (
              admission-Holds disk be content kv encode lawful server cfg.backend_sig v k b other r
                  map h,
              admission-IsMap disk be cfg.backend_sig b r map,
            ))
      where
        admitted : Router W
        admitted = (admission disk be cfg.backend_sig b r).1
