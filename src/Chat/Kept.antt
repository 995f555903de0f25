-- ===== src/Chat/Kept.antt =====
-- What a whole turn of `chat_completions` (src/lib.rs) does to a slot that is dirty with another
-- session's state.
use o_llm.Common.{
  ℕ, ◌≡◌, refl, sym, ap, subst, ◌∙◌, ◌⊎◌, inl, inr, Bool, true, false, Option, none, some, get_or,
  nat_eq, nat_eq_iff, Result, Bool-cases, In,
}
use o_llm.Common.Text.{Text, codes}
use o_llm.Json.{Json}
use o_llm.Backend.{Backend, ChatOutcome}
use o_llm.Slots.{SlotInfo, Slots, claim}
use o_llm.Slots.Views.{hold_of, is_dirty, abandon-other, claim-other, mark_clean-other}
use o_llm.Publish.{Disk, Router, save_slot}
use o_llm.Publish.Atomic.{save_slot-Marked}
use o_llm.Chat.Steer.{HasOwners, Steered, MayUseVia, searched, looked_up, admission-Steered}
use o_llm.Chat.Ends.{after_chat-Ends}
use o_llm.Chat.{
  Cache, Config, Libraries, finish, leave, after_chat, run_turn, admission, forwarded, bool_of,
}

module _ {W V : Type 0} (J : Json V) (lib : Libraries V) (disk : Disk W) (cache : Cache W)
    (be : Backend W V) (cfg : Config) (j : ℕ) where
  -- The turn is not steered to the slot.
  abbrev Elsewhere : Option ℕ → Type 0
  Elsewhere steer = (steer ≡ none) ⊎ ((id : ℕ) × (steer ≡ some id) × (nat_eq id j ≡ false))

  abbrev Same : Router W → Router W → Type 0
  Same r r' = hold_of j r'.slots ≡ hold_of j r.slots

  finish-Same :
      (steer : Option ℕ) (session : Text) (r : Router W)
      → Elsewhere steer
      → Same r (finish J lib disk cache be cfg steer session r)
  unfolding finish
  finish-Same none session r e = refl
  finish-Same (some i) session r (inl e) = absurd cc
  finish-Same (some i) session r (inr (id, e, n)) =
      let p : id ≡ i = cc in
      let m = subst (λ k. nat_eq k j ≡ false) p n in
      elim (save_slot-Marked disk be cfg.backend_sig i session
        (record r { slots = claim i session r.slots })) [
          | inl (t, q) ↦
              ap (λ g. hold_of j g) q
              ∙ (mark_clean-other i j (claim i session r.slots) m
                  ∙ claim-other i j session r.slots m)
          | inr (t, q) ↦ ap (λ g. hold_of j g) q ∙ claim-other i j session r.slots m
        ]

  leave-Same :
      (steer : Option ℕ) (r : Router W)
      → Elsewhere steer
      → Same r (leave J lib disk cache be cfg steer r)
  unfolding leave
  leave-Same none r e = refl
  leave-Same (some i) r (inl e) = absurd cc
  leave-Same (some i) r (inr (id, e, n)) =
      let p : id ≡ i = cc in abandon-other i j r.slots (subst (λ k. nat_eq k j ≡ false) p n)

  after_chat-Same :
      (is_stream : Bool) (takes : ℕ) (steer : Option ℕ) (session : Text) (g : Slots)
      (a : Result ChatOutcome Text × W)
      → Elsewhere steer
      → hold_of j (after_chat J lib disk cache be cfg is_stream takes steer session g a).1.slots
        ≡ hold_of j g
  after_chat-Same is_stream takes steer session g a h =
      after_chat-Ends J lib disk cache be cfg (λ r. hold_of j r.slots ≡ hold_of j g) is_stream takes
        steer session g a
        (
          finish-Same steer session (record { slots = g; world = a.1 }) h,
          leave-Same steer (record { slots = g; world = a.1 }) h,
          refl,
        )

  -- Why a slot that was dirty with the state of `v` need not be so after a turn of `session`.
  abbrev pub Kept : Text → Text → Router W → Router W → Type 0
  Kept session v r r' =
      (hold_of j r'.slots ≡ (some v, true))
      ⊎ (((s : SlotInfo) × In (j, s) r.slots × (s.session ≡ some session))
          ⊎ ((save_slot disk be cfg.backend_sig j v
                (searched disk be cfg.backend_sig (looked_up disk be cfg.backend_sig session r))).0
              ≡ true))

  -- The registry forgets no unpublished state. If every dirty slot has an owner: a slot that the
  -- registry lists as dirty with the state of a session `v` is so listed still after a whole turn of
  -- any session, or it was listed as the turn's own session's slot, or the state of `v` was published
  -- from it by the turn's admission. What the server does to the slot itself, in a turn that is not
  -- steered, is not part of this.
  pub run_turn-Kept :
      (takes : ℕ) (session v : Text) (parsed : V) (r : Router W)
      → HasOwners r.slots
      → hold_of j r.slots ≡ (some v, true)
      → Kept session v r
          (run_turn J lib disk cache be cfg takes session parsed
            (admission disk be cfg.backend_sig session r)).1
  unfolding run_turn
  run_turn-Kept takes session v parsed r h k =
      by_steer (admission-Steered disk be cfg.backend_sig session r h)
    where
      turn :
          Elsewhere (admission disk be cfg.backend_sig session r).0
          → hold_of j
              (run_turn J lib disk cache be cfg takes session parsed
                (admission disk be cfg.backend_sig session r)).1.slots
            ≡ hold_of j (admission disk be cfg.backend_sig session r).1.slots
      turn e =
          after_chat-Same
            (get_or (bool_of J lib disk cache be cfg (J.get parsed (codes "stream"))) false) takes
            (admission disk be cfg.backend_sig session r).0 session
            (admission disk be cfg.backend_sig session r).1.slots
            (be.chat
              (forwarded J lib disk cache be cfg parsed
                (admission disk be cfg.backend_sig session r).0)
              (admission disk be cfg.backend_sig session r).1.world)
            e

      clean-ne : is_dirty j r.slots ≡ true → is_dirty j r.slots ≡ false → (true ≡ false)
      clean-ne p q = sym p ∙ q

      some_inj : {a b : Text} → some a ≡ some b → a ≡ b
      some_inj z = cc

      by_use :
          MayUseVia disk be cfg.backend_sig session j r
            (looked_up disk be cfg.backend_sig session r)
            (searched disk be cfg.backend_sig (looked_up disk be cfg.backend_sig session r))
          → Kept session v r
              (run_turn J lib disk cache be cfg takes session parsed
                (admission disk be cfg.backend_sig session r)).1
      by_use (inl own) = inr (inl own)
      by_use (inr (inl (i, d))) = absurd (let z : true ≡ false = clean-ne (ap (λ x. x.1) k) d in cc)
      by_use (inr (inr (i, x, o, s))) =
          let q : x ≡ v = some_inj (sym o ∙ ap (λ y. y.0) k) in
          inr (
            inr (
              subst
                (λ y.
                  (save_slot disk be cfg.backend_sig j y (
                    searched disk be cfg.backend_sig
                      (looked_up disk be cfg.backend_sig session r))).0
                  ≡ true)
                q s))

      by_steer :
          Steered disk be cfg.backend_sig session r (admission disk be cfg.backend_sig session r)
          → Kept session v r
              (run_turn J lib disk cache be cfg takes session parsed
                (admission disk be cfg.backend_sig session r)).1
      by_steer (inl (n, a)) = inl (turn (inl n) ∙ (a j ∙ k))
      by_steer (inr (id, e, u, f)) = elim (Bool-cases (nat_eq id j)) [
        | inl t ↦ by_use (
            subst
              (λ x.
                MayUseVia disk be cfg.backend_sig session x r
                  (looked_up disk be cfg.backend_sig session r)
                  (searched disk be cfg.backend_sig (looked_up disk be cfg.backend_sig session r)))
              ((nat_eq_iff id j).0 t) u)
        | inr t ↦ inl (turn (inr (id, e, t)) ∙ (f j ∙ rw (t) k))
      ]
