-- ===== src/Chat/One.antt =====
-- No session has two slots, as long as requests to `chat_completions` (src/lib.rs) come one after
-- the other.
use o_llm.Common.{
  ℕ, ◌≡◌, refl, sym, ap, subst, ◌∙◌, ◌⊎◌, inl, inr, Bool, true, false, Option, none, some, List,
  nat_eq, nat_eq_iff, Bool-cases, Option-cases, Result-cases, get_or, if◌then◌else◌,
}
use o_llm.Common.Text.{Text, codes}
use o_llm.Json.{Json}
use o_llm.Key.{blob_name, session_key}
use o_llm.Backend.{Backend}
use o_llm.Slots.{Slots, owned_slot, claim, abandon, mark_clean}
use o_llm.Slots.Views.{hold_of, owner, abandon-other, hold_of-abandon}
use o_llm.Slots.Distinct.{IsMap, claim-IsMap, abandon-IsMap}
use o_llm.Publish.{Disk, Router, save_slot}
use o_llm.Publish.Atomic.{save_slot-Marked}
use o_llm.Chat.Steer.{HasOwners, admission-Steered}
use o_llm.Slots.Owned.{owned_slot-none, owned_slot-owner, mark_clean-owner}
use o_llm.Chat.Owners.{chat_completions-HasOwners}
use o_llm.Chat.Given.{admission-Given}
use o_llm.Chat.Maps.{save_slot-IsMap, admission-IsMap}
use o_llm.Chat.Apart.{claim-Agree}
use o_llm.Chat.Ends.{after_chat-Ends}
use o_llm.Chat.{
  Cache, Config, Libraries, Response, finish, leave, run_turn, admission, forwarded, bool_of,
  pick_slot, settle, chat_completions,
}

abbrev pub IsOne : Slots → Type 0
IsOne g = (u : Text) (i j : ℕ) → owner i g ≡ some u → owner j g ≡ some u → i ≡ j

-- The registry is sound: a dirty slot has an owner, no slot is listed twice, and no session has two
-- slots.
abbrev pub IsSound : Slots → Type 0
IsSound g = HasOwners g × IsMap g × IsOne g

-- Slots may lose their sessions.
IsOne-fewer :
    (g g' : Slots)
    → ((j : ℕ) (u : Text) → owner j g' ≡ some u → owner j g ≡ some u)
    → IsOne g
    → IsOne g'
IsOne-fewer g g' fewer one u i j p q = one u i j (fewer i u p) (fewer j u q)

-- A slot becomes the session's, which has no other.
IsOne-taken :
    (id : ℕ) (b : Text) (g g' : Slots)
    → ((j : ℕ) → hold_of j g' ≡ (if nat_eq id j then (some b, true) else hold_of j g))
    → ((j : ℕ) → owner j g ≡ some b → id ≡ j)
    → IsOne g
    → IsOne g'
IsOne-taken id b g g' now only one u i j p q =
    by_tests (Bool-cases (nat_eq id i)) (Bool-cases (nat_eq id j))
  where
    here : (x : ℕ) → nat_eq id x ≡ true → owner x g' ≡ some u → u ≡ b
    here x e o = let z : some b ≡ some u = sym (ap (λ y. y.0) (rw e at (now x))) ∙ o in cc

    there : (x : ℕ) → nat_eq id x ≡ false → owner x g' ≡ some u → owner x g ≡ some u
    there x n o = sym (ap (λ y. y.0) (rw n at (now x))) ∙ o

    by_tests :
        (nat_eq id i ≡ true) ⊎ (nat_eq id i ≡ false)
        → (nat_eq id j ≡ true) ⊎ (nat_eq id j ≡ false)
        → i ≡ j
    by_tests (inl e) (inl f) = sym ((nat_eq_iff id i).0 e) ∙ (nat_eq_iff id j).0 f
    by_tests (inr e) (inr f) = one u i j (there i e p) (there j f q)
    by_tests (inl e) (inr f) =
        sym ((nat_eq_iff id i).0 e) ∙ only j (there j f q ∙ ap (λ x. some x) (here i e p))
    by_tests (inr e) (inl f) =
        sym (only i (there i e p ∙ ap (λ x. some x) (here j f q))) ∙ (nat_eq_iff id j).0 f

module _ {W V : Type 0} (disk : Disk W) (be : Backend W V) (sig : Text) where
  -- A session that has a slot is steered to it.
  settled_hot :
      (hit : Bool) (b : Text) (i : ℕ) (r : Router W)
      → (settle disk be sig hit b (some (i, true), r)).0 ≡ some i
  unfolding settle
  settled_hot hit b i r = refl

  admission-hot :
      (b : Text) (i : ℕ) (r : Router W)
      → owned_slot b r.slots ≡ some i
      → (admission disk be sig b r).0 ≡ some i
  unfolding admission pick_slot
  admission-hot b i r e =
      rw (e, pick_slot) (settled_hot (disk.exists (blob_name b sig) r.world) b i r)

  -- Every slot of the session is the one that it is steered to.
  pub only_one :
      (b : Text) (id : ℕ) (r : Router W)
      → IsMap r.slots
      → IsOne r.slots
      → (admission disk be sig b r).0 ≡ some id
      → (j : ℕ) → owner j r.slots ≡ some b
      → id ≡ j
  only_one b id r map one e j o = elim (Option-cases (owned_slot b r.slots)) [
    | inl n ↦ absurd (owned_slot-none b r.slots j n o)
    | inr (i, q) ↦
        let p : some i ≡ some id = sym (admission-hot b i r q) ∙ e in
        let same : i ≡ id = cc in sym same ∙ one b i j (owned_slot-owner b r.slots i map q) o
  ]

  pub admission-IsOne :
      (b : Text) (r : Router W)
      → HasOwners r.slots
      → IsMap r.slots
      → IsOne r.slots
      → IsOne (admission disk be sig b r).1.slots
  admission-IsOne b r own map one = elim (admission-Steered disk be sig b r own) [
    | inl (n, agree) ↦
        IsOne-fewer r.slots (admission disk be sig b r).1.slots
          (λ j u o. sym (ap (λ x. x.0) (agree j)) ∙ o) one
    | inr (id, e, reason, now) ↦
        IsOne-taken id b r.slots (admission disk be sig b r).1.slots now (only_one b id r map one e)
          one
  ]

module _ {W V : Type 0} (J : Json V) (lib : Libraries V) (disk : Disk W) (cache : Cache W)
    (be : Backend W V) (cfg : Config) where
  -- What is kept of the registry.
  abbrev Neat : Router W → Type 0
  Neat r = IsMap r.slots × IsOne r.slots

  -- The slot that a turn is steered to is its session's.
  abbrev IsGiven : Option ℕ → Text → Slots → Type 0
  IsGiven steer b g = (id : ℕ) → steer ≡ some id → owner id g ≡ some b

  save_slot-Neat :
      (id : ℕ) (b : Text) (r : Router W)
      → owner id r.slots ≡ some b
      → Neat r
      → Neat (save_slot disk be cfg.backend_sig id b r).1
  save_slot-Neat id b r own (map, one) = (
    save_slot-IsMap disk be cfg.backend_sig id b r map,
    elim (save_slot-Marked disk be cfg.backend_sig id b r) [
      | inl (t, m) ↦ subst IsOne (sym m) (
          IsOne-fewer r.slots (mark_clean id r.slots)
            (λ j u o. sym (mark_clean-owner id j b r.slots own) ∙ o) one)
      | inr (f, m) ↦ subst IsOne (sym m) one
    ],
  )

  finish-Neat :
      (steer : Option ℕ) (b : Text) (r : Router W)
      → IsGiven steer b r.slots
      → Neat r
      → Neat (finish J lib disk cache be cfg steer b r)
  unfolding finish
  finish-Neat none b r given neat = neat
  finish-Neat (some id) b r given (map, one) =
      let own = given id refl in
      let agree = claim-Agree b id r.slots own in
      save_slot-Neat id b (record r { slots = claim id b r.slots }) (ap (λ x. x.0) (agree id) ∙ own)
        (
          claim-IsMap id b r.slots map,
          IsOne-fewer r.slots (claim id b r.slots) (λ j u o. sym (ap (λ x. x.0) (agree j)) ∙ o) one,
        )

  leave-Neat :
      (steer : Option ℕ) (r : Router W) → Neat r → Neat (leave J lib disk cache be cfg steer r)
  unfolding leave
  leave-Neat none r neat = neat
  leave-Neat (some id) r (map, one) =
      (abandon-IsMap id r.slots map, IsOne-fewer r.slots (abandon id r.slots) fewer one)
    where
      fewer : (j : ℕ) (u : Text) → owner j (abandon id r.slots) ≡ some u → owner j r.slots ≡ some u
      fewer j u o = elim (Bool-cases (nat_eq id j)) [
        | inr n ↦ sym (ap (λ x. x.0) (abandon-other id j r.slots n)) ∙ o
        | inl e ↦
            let gone =
              subst (λ i. hold_of i (abandon id r.slots) ≡ (none, false)) ((nat_eq_iff id j).0 e)
                (hold_of-abandon id r.slots) in
            let z : none ≡ some u = sym (ap (λ x. x.0) gone) ∙ o in absurd cc
      ]

  pub run_turn-Neat :
      (takes : ℕ) (b : Text) (parsed : V) (p : Option ℕ × Router W)
      → IsGiven p.0 b p.1.slots
      → Neat p.1
      → Neat (run_turn J lib disk cache be cfg takes b parsed p).1
  unfolding run_turn
  run_turn-Neat takes b parsed (steer, r) given neat =
      let answered : Router W = record {
        slots = r.slots;
        world = (be.chat (forwarded J lib disk cache be cfg parsed steer) r.world).1;
      } in
      after_chat-Ends J lib disk cache be cfg Neat
        (get_or (bool_of J lib disk cache be cfg (J.get parsed (codes "stream"))) false) takes steer
        b r.slots (be.chat (forwarded J lib disk cache be cfg parsed steer) r.world)
        (finish-Neat steer b answered given neat, leave-Neat steer answered neat, neat)

  -- A sound registry stays sound under a request, whatever the request, the backend, the disk and
  -- the client do.
  pub chat_completions-IsSound :
      (takes : ℕ) (headers : Text → Option Text) (raw : List ℕ) (r : Router W)
      (p : Response × Router W)
      → IsSound r.slots
      → chat_completions J lib disk cache be cfg takes headers raw r ≡ some p
      → IsSound p.1.slots
  unfolding chat_completions
  chat_completions-IsSound takes headers raw r p sound e = (
    chat_completions-HasOwners J lib disk cache be cfg takes headers raw r p sound.0 e,
    tidy.0,
    tidy.1,
  )
    where
      some_inj : {A : Type 0} {a b : A} → some a ≡ some b → a ≡ b
      some_inj q = cc

      turn :
          (parsed : V) (session : Text)
          → Neat
              (run_turn J lib disk cache be cfg takes session parsed
                (admission disk be cfg.backend_sig session r)).1
      turn parsed session =
          run_turn-Neat takes session parsed (admission disk be cfg.backend_sig session r)
            (λ id q. ap (λ x. x.0) (admission-Given disk be cfg.backend_sig session r id q))
            (
              admission-IsMap disk be cfg.backend_sig session r sound.1,
              admission-IsOne disk be cfg.backend_sig session r sound.0 sound.1 sound.2,
            )

      tidy : Neat p.1
      tidy = elim (Result-cases (lib.from_slice raw)) [
        | inr (t, k) ↦
            subst (λ q. Neat q.1) (some_inj (rw (k, chat_completions) at e)) (sound.1, sound.2)
        | inl (parsed, k) ↦
            elim (Option-cases (session_key J lib.sha256 headers parsed cfg.session_header)) [
              | inl n ↦ let z : none ≡ some p = rw (k, chat_completions, n) at e in absurd cc
              | inr (session, n) ↦
                  subst (λ q. Neat q.1) (some_inj (rw (k, chat_completions, n) at e))
                    (turn parsed session)
            ]
      ]
