-- ===== src/Chat/Ends.antt =====
-- How a turn of `chat_completions` (src/lib.rs) ends: with its save, with its slot given up, or
-- with the registry as it is.
use o_llm.Common.{ℕ, Bool, true, false, ◌&&◌, not, Option, [], ◌∷◌, Result, ok, err, if◌then◌else◌}
use o_llm.Common.Text.{Text}
use o_llm.Json.{Json}
use o_llm.Backend.{Backend, ChatOutcome}
use o_llm.Slots.{Slots}
use o_llm.Publish.{Disk, Router}
use o_llm.Chat.{
  Cache, Config, Libraries, Response, pump, finish, leave, after_pump, after_chat, relay,
  is_success, status_code, error_body, body, collect_body, drain,
}

module _ {W V : Type 0} (J : Json V) (lib : Libraries V) (disk : Disk W) (cache : Cache W)
    (be : Backend W V) (cfg : Config) (Q : Router W → Type 0) where
  -- What holds of the router after each of the three ends holds after the turn.
  abbrev Ends : Option ℕ → Text → Router W → Type 0
  Ends steer session r =
      Q (finish J lib disk cache be cfg steer session r)
      × Q (leave J lib disk cache be cfg steer r)
      × Q r

  after_pump-Ends :
      (f d : Bool) (steer : Option ℕ) (session : Text) (r : Router W)
      → Ends steer session r
      → Q (
          if not f && not d
          then finish J lib disk cache be cfg steer session r
          else (if d then leave J lib disk cache be cfg steer r else r))
  after_pump-Ends false false steer session r (s, l, u) = s
  after_pump-Ends true false steer session r (s, l, u) = u
  after_pump-Ends true true steer session r (s, l, u) = l
  after_pump-Ends false true steer session r (s, l, u) = l

  pub relay-Ends :
      (is_stream : Bool) (takes : ℕ) (steer : Option ℕ) (session : Text) (o : ChatOutcome)
      (r : Router W)
      → Ends steer session r
      → Q (relay J lib disk cache be cfg is_stream takes steer session o r).1
  unfolding relay after_pump
  relay-Ends is_stream takes steer session o r (s, l, u) =
      by_tests (is_success (status_code o.status)) is_stream
    where
      QOf : Response × Router W → Type 0
      QOf p = Q p.1

      by_tests :
          (a b : Bool)
          → QOf (
              if a
              then (if b
                  then (
                    body (status_code o.status) (pump takes o.stream).sent,
                    after_pump J lib disk cache be cfg steer session (pump takes o.stream) r,
                  )
                  else (
                    body (status_code o.status) (collect_body o.stream ∷ []),
                    finish J lib disk cache be cfg steer session r,
                  ))
              else (error_body (status_code o.status) (lib.from_utf8_lossy (drain o.stream)), r))
      by_tests false b = u
      by_tests true false = s
      by_tests true true =
          after_pump-Ends (pump takes o.stream).failed (pump takes o.stream).disconnected steer
            session r (s, l, u)

  pub after_chat-Ends :
      (is_stream : Bool) (takes : ℕ) (steer : Option ℕ) (session : Text) (g : Slots)
      (a : Result ChatOutcome Text × W)
      → Ends steer session (record { slots = g; world = a.1 })
      → Q (after_chat J lib disk cache be cfg is_stream takes steer session g a).1
  unfolding after_chat
  after_chat-Ends is_stream takes steer session g (err e, w) (s, l, u) = u
  after_chat-Ends is_stream takes steer session g (ok o, w) ends =
      relay-Ends is_stream takes steer session o (record { slots = g; world = w }) ends
