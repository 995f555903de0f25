-- ===== src/Chat/Turn.antt =====
-- The end of a turn: what the client gets of the stream, and what becomes of the slot.

use o_llm.Common.{
  ℕ, zero, suc, ◌≡◌, refl, sym, ap, ◌∙◌, ◌⊎◌, inl, inr, Bool, true, false, ◌&&◌, not, Option, none,
  some, List, [], ◌∷◌, ◌++◌, map, if◌then◌else◌, arith, Result, ok, err, length, flat_map, ◌≤◌,
}
use o_llm.Common.Text.{Text}
use o_llm.Json.{Json}
use o_llm.Backend.{Backend, ChatOutcome}
use o_llm.Slots.{claim}
use o_llm.Slots.Views.{hold_of, claim-owned, mark_clean-owned, hold_of-abandon}
use o_llm.Publish.{Disk, Router, save_slot}
use o_llm.Publish.Atomic.{save_slot-Marked}
use o_llm.Chat.{
  Pumped, pump, sending, Cache, Config, Libraries, finish, leave, after_pump, relay, body,
  status_code, is_success, collect_body,
}

-- Where the pump of a stream stops: at its end, at an error after some chunks, or at the first
-- chunk that the client does not take.
abbrev pub Stopped : ℕ → List (Result (List ℕ) Text) → Pumped → Type 0
Stopped takes stream p =
    ((stream ≡ map (λ b. ok b) p.sent)
      × (length p.sent ≤ takes)
      × (p.failed ≡ false)
      × (p.disconnected ≡ false))
    ⊎ (((e : Text) × (rest : List (Result (List ℕ) Text)) × (stream
            ≡ map (λ b. ok b) p.sent ++ (err e ∷ rest))
          × (length p.sent ≤ takes)
          × (p.failed ≡ true)
          × (p.disconnected ≡ false))
        ⊎ ((b : List ℕ) × (rest : List (Result (List ℕ) Text)) × (stream
              ≡ map (λ b. ok b) p.sent ++ (ok b ∷ rest))
            × (length p.sent ≡ takes)
            × (p.failed ≡ false)
            × (p.disconnected ≡ true)))

sending-Stopped :
    (takes : ℕ) (b : List ℕ) (stream : List (Result (List ℕ) Text)) (p : Pumped)
    → Stopped takes stream p
    → Stopped (suc takes) (ok b ∷ stream) (sending b p)
sending-Stopped takes b stream p (inl (e, l, f, d)) = inl (ap (◌∷◌ (ok b)) e, omega arith, f, d)
sending-Stopped takes b stream p (inr (inl (x, rest, e, l, f, d))) =
    inr (inl (x, rest, ap (◌∷◌ (ok b)) e, omega arith, f, d))
sending-Stopped takes b stream p (inr (inr (x, rest, e, l, f, d))) =
    inr (inr (x, rest, ap (◌∷◌ (ok b)) e, ap suc l, f, d))

-- The client gets the backend's chunks unchanged and in order: all of them up to where the pump
-- stops, which is the stream's end, its first error, or the first chunk that is not taken; and
-- the flags say which.
pub pump-Stopped :
    (takes : ℕ) (stream : List (Result (List ℕ) Text)) → Stopped takes stream (pump takes stream)
unfolding pump
pump-Stopped takes [] = inl (refl, omega arith, refl, refl)
pump-Stopped takes (err e ∷ stream) = inr (inl (e, stream, refl, omega arith, refl, refl))
pump-Stopped zero (ok b ∷ stream) = inr (inr (b, stream, refl, refl, refl, refl))
pump-Stopped (suc takes) (ok b ∷ stream) =
    sending-Stopped takes b stream (pump takes stream) (pump-Stopped takes stream)

module _ {W V : Type 0} (J : Json V) (lib : Libraries V) (disk : Disk W) (cache : Cache W)
    (be : Backend W V) (cfg : Config) where
  -- Whether the save at the end of the turn publishes.
  abbrev pub saves : ℕ → Text → Router W → Bool
  saves id session r =
      (save_slot disk be cfg.backend_sig id session
        (record r { slots = claim id session r.slots })).0

  -- The slot stays the session's, and it is clean if the save published and dirty if not.
  finish-hold :
      (id : ℕ) (session : Text) (r : Router W)
      → hold_of id r.slots ≡ (some session, true)
      → hold_of id (finish J lib disk cache be cfg (some id) session r).slots
        ≡ (some session, not (saves id session r))
  unfolding finish
  finish-hold id session r h =
      let c = claim-owned id session true r.slots h in
      elim (save_slot-Marked disk be cfg.backend_sig id session
        (record r { slots = claim id session r.slots })) [
          | inl (t, m) ↦
              ap (λ g. hold_of id g) m
              ∙ (mark_clean-owned id session true (claim id session r.slots) c
                  ∙ ap (λ b. (some session, not b)) (sym t))
          | inr (t, m) ↦ ap (λ g. hold_of id g) m ∙ (c ∙ ap (λ b. (some session, not b)) (sym t))
        ]

  abbrev pub TurnEnd : ℕ → Text → Pumped → Router W → Router W → Type 0
  TurnEnd id session p r r' =
      ((p.failed ≡ false)
        × (p.disconnected ≡ false)
        × (hold_of id r'.slots ≡ (some session, not (saves id session r))))
      ⊎ (((p.disconnected ≡ true) × (hold_of id r'.slots ≡ (none, false)) × (r'.world ≡ r.world))
          ⊎ ((p.failed ≡ true) × (r' ≡ r)))

  -- The three ends of a streamed turn whose slot is the session's and dirty, as the admission
  -- leaves it. After a turn that ran through the slot is the session's still, and clean exactly
  -- if its save published; one that the client left gives up the slot, which is then clean, and
  -- writes nothing; one whose stream failed changes nothing.
  pub after_pump-TurnEnd :
      (id : ℕ) (session : Text) (p : Pumped) (r : Router W)
      → hold_of id r.slots ≡ (some session, true)
      → TurnEnd id session p r (after_pump J lib disk cache be cfg (some id) session p r)
  unfolding after_pump leave
  after_pump-TurnEnd id session p r h = by_flags p.failed p.disconnected refl refl
    where
      by_flags :
          (f d : Bool)
          → p.failed ≡ f
          → p.disconnected ≡ d
          → TurnEnd id session p r (
              if not f && not d
              then finish J lib disk cache be cfg (some id) session r
              else (if d then leave J lib disk cache be cfg (some id) r else r))
      by_flags false false e g = inl (e, g, finish-hold id session r h)
      by_flags true true e g = inr (inl (g, hold_of-abandon id r.slots, refl))
      by_flags false true e g = inr (inl (g, hold_of-abandon id r.slots, refl))
      by_flags true false e g = inr (inr (e, refl))

  collect_body-truncated :
      (bs : List (List ℕ)) (e : Text) (rest : List (Result (List ℕ) Text))
      → collect_body (map (λ b. ok b) bs ++ (err e ∷ rest)) ≡ flat_map (λ b. b) bs
  unfolding collect_body
  collect_body-truncated [] e rest = refl
  collect_body-truncated (b ∷ bs) e rest = ap (λ x. b ++ x) (collect_body-truncated bs e rest)

  -- Without streaming, a body that breaks off with an error is answered as a success with the
  -- chunks before the error, and the turn is finished and saved as one that ran through.
  pub relay-truncated :
      (takes : ℕ) (steer : Option ℕ) (session : Text) (outcome : ChatOutcome) (r : Router W)
      (bs : List (List ℕ)) (e : Text) (rest : List (Result (List ℕ) Text))
      → is_success (status_code outcome.status) ≡ true
      → outcome.stream ≡ map (λ b. ok b) bs ++ (err e ∷ rest)
      → relay J lib disk cache be cfg false takes steer session outcome r ≡ (
        body (status_code outcome.status) (flat_map (λ b. b) bs ∷ []),
        finish J lib disk cache be cfg steer session r,
      )
  unfolding relay
  relay-truncated takes steer session outcome r bs e rest s t =
      rw (s, relay)
        (ap
          (λ c. (
            body (status_code outcome.status) (c ∷ []),
            finish J lib disk cache be cfg steer session r,
          ))
          (ap (λ c. collect_body c) t ∙ collect_body-truncated bs e rest))
