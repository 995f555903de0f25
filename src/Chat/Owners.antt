-- ===== src/Chat/Owners.antt =====
-- The registry's invariant through a whole request: a dirty slot has an owner.

use o_llm.Common.{
  ℕ, ◌≡◌, sym, ap, subst, ◌∙◌, ◌⊎◌, inl, inr, Bool, true, false, Option, none, some, List, get_or,
  nat_eq, nat_eq_iff, Result, Bool-cases, Option-cases, Result-cases,
}
use o_llm.Common.Text.{Text, codes}
use o_llm.Json.{Json}
use o_llm.Key.{session_key}
use o_llm.Backend.{Backend, ChatOutcome}
use o_llm.Slots.{Slots, claim, abandon, mark_clean}
use o_llm.Slots.Views.{
  hold_of, owner, is_dirty, hold_of-abandon, abandon-other, claim-other, mark_clean-other,
  mark_clean-cleans, update-itself,
}
use o_llm.Publish.{Disk, Router}
use o_llm.Publish.Atomic.{save_slot-Marked}
use o_llm.Chat.Steer.{HasOwners, admission-HasOwners}
use o_llm.Chat.Ends.{after_chat-Ends}
use o_llm.Chat.{
  Cache, Config, Libraries, Response, finish, leave, after_chat, run_turn, chat_completions,
  admission, forwarded, bool_of,
}

-- A change of one slot that leaves it clean or owned.
pub HasOwners-step :
    (id : ℕ) (g g' : Slots)
    → HasOwners g
    → ((j : ℕ) → nat_eq id j ≡ false → hold_of j g' ≡ hold_of j g)
    → (is_dirty id g' ≡ false) ⊎ ((v : Text) × (owner id g' ≡ some v))
    → HasOwners g'
HasOwners-step id g g' h others here j d = elim (Bool-cases (nat_eq id j)) [
  | inl e ↦ at_id (
      subst (λ k. (is_dirty k g' ≡ false) ⊎ ((v : Text) × (owner k g' ≡ some v)))
        ((nat_eq_iff id j).0 e) here)
  | inr n ↦
      let (v, o) = h j (sym (ap (λ x. x.1) (others j n)) ∙ d) in (v, ap (λ x. x.0) (others j n) ∙ o)
]
  where
    at_id :
        (is_dirty j g' ≡ false) ⊎ ((v : Text) × (owner j g' ≡ some v))
        → (v : Text) × (owner j g' ≡ some v)
    at_id (inl c) = absurd (let k : false ≡ true = sym c ∙ d in cc)
    at_id (inr o) = o

pub claim-HasOwners :
    (id : ℕ) (session : Text) (g : Slots) → HasOwners g → HasOwners (claim id session g)
unfolding claim
claim-HasOwners id session g h =
    HasOwners-step id g (claim id session g) h (λ j n. claim-other id j session g n)
      (elim (update-itself (λ s. record s { session = some session }) id g) [
        | inl e ↦ inl (ap (λ x. x.1) e)
        | inr (s, e) ↦ inr (session, ap (λ x. x.0) e)
      ])

pub mark_clean-HasOwners : (id : ℕ) (g : Slots) → HasOwners g → HasOwners (mark_clean id g)
mark_clean-HasOwners id g h =
    HasOwners-step id g (mark_clean id g) h (λ j n. mark_clean-other id j g n)
      (inl (mark_clean-cleans id g))

abandon-HasOwners : (id : ℕ) (g : Slots) → HasOwners g → HasOwners (abandon id g)
abandon-HasOwners id g h =
    HasOwners-step id g (abandon id g) h (λ j n. abandon-other id j g n)
      (inl (ap (λ x. x.1) (hold_of-abandon id g)))

module _ {W V : Type 0} (J : Json V) (lib : Libraries V) (disk : Disk W) (cache : Cache W)
    (be : Backend W V) (cfg : Config) where
  finish-HasOwners :
      (steer : Option ℕ) (session : Text) (r : Router W)
      → HasOwners r.slots
      → HasOwners (finish J lib disk cache be cfg steer session r).slots
  unfolding finish
  finish-HasOwners none session r h = h
  finish-HasOwners (some id) session r h =
      let c = claim-HasOwners id session r.slots h in
      elim (save_slot-Marked disk be cfg.backend_sig id session
        (record r { slots = claim id session r.slots })) [
          | inl (t, m) ↦
              subst HasOwners (sym m) (mark_clean-HasOwners id (claim id session r.slots) c)
          | inr (t, m) ↦ subst HasOwners (sym m) c
        ]

  pub leave-HasOwners :
      (steer : Option ℕ) (r : Router W)
      → HasOwners r.slots
      → HasOwners (leave J lib disk cache be cfg steer r).slots
  unfolding leave
  leave-HasOwners none r h = h
  leave-HasOwners (some id) r h = abandon-HasOwners id r.slots h

  after_chat-HasOwners :
      (is_stream : Bool) (takes : ℕ) (steer : Option ℕ) (session : Text) (g : Slots)
      (a : Result ChatOutcome Text × W)
      → HasOwners g
      → HasOwners (after_chat J lib disk cache be cfg is_stream takes steer session g a).1.slots
  after_chat-HasOwners is_stream takes steer session g a h =
      after_chat-Ends J lib disk cache be cfg (λ r. HasOwners r.slots) is_stream takes steer session
        g a
        (
          finish-HasOwners steer session (record { slots = g; world = a.1 }) h,
          leave-HasOwners steer (record { slots = g; world = a.1 }) h,
          h,
        )

  -- If every dirty slot has an owner before a request, then so it is after it, whatever the
  -- request, the backend, the disk and the client do: an eviction always knows under which
  -- session to publish.
  pub chat_completions-HasOwners :
      (takes : ℕ) (headers : Text → Option Text) (raw : List ℕ) (r : Router W)
      (p : Response × Router W)
      → HasOwners r.slots
      → chat_completions J lib disk cache be cfg takes headers raw r ≡ some p
      → HasOwners p.1.slots
  unfolding chat_completions run_turn
  chat_completions-HasOwners takes headers raw r p h e = elim (Result-cases (lib.from_slice raw)) [
    | inr (t, k) ↦ subst (λ q. HasOwners q.1.slots) (some_inj (rw (k, chat_completions) at e)) h
    | inl (parsed, k) ↦
        elim (Option-cases (session_key J lib.sha256 headers parsed cfg.session_header)) [
          | inl n ↦ let z : none ≡ some p = rw (k, chat_completions, n) at e in absurd cc
          | inr (session, n) ↦
              subst (λ q. HasOwners q.1.slots) (some_inj (rw (k, chat_completions, n) at e))
                (turn parsed session)
        ]
  ]
    where
      some_inj : {A : Type 0} {a b : A} → some a ≡ some b → a ≡ b
      some_inj q = cc

      turn :
          (parsed : V) (session : Text)
          → HasOwners
              (run_turn J lib disk cache be cfg takes session parsed
                (admission disk be cfg.backend_sig session r)).1.slots
      turn parsed session =
          after_chat-HasOwners
            (get_or (bool_of J lib disk cache be cfg (J.get parsed (codes "stream"))) false) takes
            (admission disk be cfg.backend_sig session r).0 session
            (admission disk be cfg.backend_sig session r).1.slots
            (be.chat
              (forwarded J lib disk cache be cfg parsed
                (admission disk be cfg.backend_sig session r).0)
              (admission disk be cfg.backend_sig session r).1.world)
            (admission-HasOwners disk be cfg.backend_sig session r h)
