-- ===== src/Chat/Own.antt =====
-- The state of a session after its own turn (`chat_completions` of src/lib.rs).
use o_llm.Common.{
  ℕ, ◌≡◌, refl, sym, ap, subst, ◌⊎◌, inl, inr, true, false, Option, some, List, get_or,
}
use o_llm.Common.Text.{Text, codes}
use o_llm.Json.{Json}
use o_llm.Backend.{Backend}
use o_llm.Slots.Views.{hold_of, owner}
use o_llm.Slots.Distinct.{IsMap}
use o_llm.Publish.{Disk, IsDisk, Router}
use o_llm.Publish.Server.{IsServer}
use o_llm.Chat.State.{Holds}
use o_llm.Chat.Maps.{admission-IsMap}
use o_llm.Chat.Given.{admission-Given}
use o_llm.Chat.One.{IsSound, admission-IsOne}
use o_llm.Chat.Apart.{IsApart, finish-Kept}
use o_llm.Chat.Ends.{after_chat-Ends}
use o_llm.Chat.{Cache, Config, Libraries, leave, run_turn, admission, forwarded, bool_of}

module _ {W V K : Type 0} (J : Json V) (lib : Libraries V) (disk : Disk W) (cache : Cache W)
    (be : Backend W V) (cfg : Config) (content : Text → W → Option (List ℕ)) (kv : ℕ → W → K)
    (encode : K → List ℕ) (lawful : IsDisk disk content)
    (server : IsServer disk be content kv encode) (v : Text) where
  -- The router when the turn, steered to a slot, has been answered.
  abbrev pub answered : V → ℕ → Router W → Router W
  answered parsed id r = record {
    slots = r.slots;
    world = (be.chat (forwarded J lib disk cache be cfg parsed (some id)) r.world).1;
  }

  -- The session's state is that of the slot when the turn has been answered; or the turn has given
  -- the slot up.
  abbrev pub HasTurned : V → ℕ → Router W → Router W → Type 0
  HasTurned parsed id r r' =
      Holds disk be content kv encode lawful server cfg.backend_sig v
        (kv id (answered parsed id r).world) r'
      ⊎ (r' ≡ leave J lib disk cache be cfg (some id) (answered parsed id r))

  steered-HasTurned :
      (takes : ℕ) (parsed : V) (id : ℕ) (r : Router W)
      → IsApart J cache be cfg content kv v
      → hold_of id r.slots ≡ (some v, true)
      → IsMap r.slots
      → ((j : ℕ) → owner j r.slots ≡ some v → id ≡ j)
      → HasTurned parsed id r (run_turn J lib disk cache be cfg takes v parsed (some id, r)).1
  unfolding run_turn
  steered-HasTurned takes parsed id r apart hold map only =
      after_chat-Ends J lib disk cache be cfg (HasTurned parsed id r)
        (get_or (bool_of J lib disk cache be cfg (J.get parsed (codes "stream"))) false) takes
        (some id) v r.slots (be.chat (forwarded J lib disk cache be cfg parsed (some id)) r.world)
        (
          inl
              (finish-Kept J lib disk cache be cfg content kv encode lawful server v k apart v id
                (answered parsed id r) own (here, map)).0,
          inr refl,
          inl here,
        )
    where
      k : K
      k = kv id (answered parsed id r).world

      own : owner id r.slots ≡ some v
      own = ap (λ x. x.0) hold

      here :
          Holds disk be content kv encode lawful server cfg.backend_sig v k (answered parsed id r)
      here = (
        λ j o. ap (λ i. kv i (answered parsed id r).world) (sym (only j o)),
        inl (id, own, ap (λ x. x.1) hold),
      )

  -- The state of a session is what its last turn left. If the registry is sound, the quota spares
  -- the session's blob and does nothing to the slots, and a steered turn writes its own slot and no
  -- file of the cache, then after a turn of the session that is steered to a slot, the session's
  -- state, in its slots and in an unpublished slot or in its blob, is the state that the slot had
  -- when the turn had been answered; or the turn has given up the slot.
  pub run_turn-HasTurned :
      (takes : ℕ) (parsed : V) (id : ℕ) (r : Router W)
      → IsSound r.slots
      → (admission disk be cfg.backend_sig v r).0 ≡ some id
      → IsApart J cache be cfg content kv v
      → HasTurned parsed id
          (admission disk be cfg.backend_sig v r).1
          (run_turn J lib disk cache be cfg takes v parsed
            (admission disk be cfg.backend_sig v r)).1
  run_turn-HasTurned takes parsed id r (owners, map, one) e apart =
      subst
        (λ o.
          HasTurned parsed id admitted
            (run_turn J lib disk cache be cfg takes v parsed (o, admitted)).1)
        (sym e)
        (steered-HasTurned takes parsed id admitted apart hold
          (admission-IsMap disk be cfg.backend_sig v r map)
          (λ j o.
            admission-IsOne disk be cfg.backend_sig v r owners map one v id j (ap (λ x. x.0) hold)
              o))
    where
      admitted : Router W
      admitted = (admission disk be cfg.backend_sig v r).1

      hold : hold_of id admitted.slots ≡ (some v, true)
      hold = admission-Given disk be cfg.backend_sig v r id e
