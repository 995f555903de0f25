-- ===== src/Seed/Protocol.antt =====
-- The protocol of the seed dance: `prepare` of src/seed.rs keeps to it.
use mathlib.Core.List.{append_assoc, append-nil}
use o_llm.Common.{
  ℕ, ◌≡◌, refl, sym, ◌∙◌, inl, inr, true, false, Option, none, some, List, [], ◌∷◌, ◌++◌, is_ok,
  Bool-cases,
}
use o_llm.Common.Text.{Text}
use o_llm.Common.Dict.{lookup, name_eq}
use o_llm.Json.{Json}
use o_llm.Key.Session.{IsDigest}
use o_llm.Seed.Names.{system_hash-total}
use o_llm.Backend.{Backend}
use o_llm.Seed.{
  Bag, Publisher, SeedResult, skipped, Dance, seed_blob_name, scratch_of, is_open, is_confirmed,
  reported, system_hash, open_entry, is_cached, dance, after_restore, sight, after_gate, admit,
  prepare,
}
use o_llm.Seed.Trace.{
  prefill_failed, unconfirmed, save_failed, publish_failed, all_done, Event, Watched,
  watched_backend, watched_publisher, is_open-ShownIdle, is_confirmed-ShownLanded, DanceTrace,
  PrepareTrace, no_system, gated, second_sight, danced, seen, prefilled, saved, restored_into,
  published,
}

-- The call ends with `new` added to the log, and the result and `new` are as `P` says.
abbrev pub Logs :
    {W V : Type 0}
    → (SeedResult → List (Event V) → Type 0)
    → List (Event V)
    → SeedResult × Dance (Watched W V) V
    → Type 0
Logs {W} {V} P log p = (new : List (Event V)) × (p.1.world.1 ≡ log ++ new) × P p.0 new

module _ {W V : Type 0} (J : Json V) (sha256 : List ℕ → List ℕ) (be : Backend W V)
    (pu : Publisher W) where
  dance-Trace :
      (key : Text) (slot : ℕ) (messages : V) (bag : Bag V) (w : W) (log : List (Event V))
      → Logs
          (DanceTrace slot (seed_blob_name key) (open_entry J messages (lookup key bag)).system)
          log
          (dance J sha256
            (watched_backend be)
            (watched_publisher pu)
            key
            slot
            messages
            bag
            (w, log))
  unfolding dance
  dance-Trace key slot messages bag w log =
      let name = seed_blob_name key in
      let system = (open_entry J messages (lookup key bag)).system in
      let a = be.prefill_only slot system w in
      let b = be.slots a.1 in
      let c = be.save_slot slot (scratch_of name) b.1 in
      let d = pu.publish (scratch_of name) name c.1 in
      elim (Bool-cases (is_ok a.0)) [
        | inr bad ↦ rw bad (prefilled slot system false ∷ [], refl, prefill_failed)
        | inl ok1 ↦ elim (Bool-cases (is_confirmed (reported slot b.0))) [
          | inr bad ↦
              rw (ok1, bad)
                (prefilled slot system true ∷ seen b.0 ∷ [], simp append_assoc, unconfirmed b.0 bad)
          | inl ok2 ↦ elim (Bool-cases (is_ok c.0)) [
            | inr bad ↦
                rw (ok1, ok2, bad)
                  (
                    prefilled slot system true ∷ seen b.0 ∷ saved slot (scratch_of name) false ∷ [],
                    simp append_assoc,
                    save_failed b.0 (is_confirmed-ShownLanded slot b.0 ok2),
                  )
            | inl ok3 ↦ elim (Bool-cases (is_ok d.0)) [
              | inr bad ↦
                  rw (ok1, ok2, ok3, bad)
                    (
                      prefilled slot system true
                          ∷ seen b.0
                          ∷ saved slot (scratch_of name) true
                          ∷ published (scratch_of name) name false
                          ∷ [],
                      simp append_assoc,
                      publish_failed b.0 (is_confirmed-ShownLanded slot b.0 ok2),
                    )
              | inl ok4 ↦
                  rw (ok1, ok2, ok3, ok4)
                    (
                      prefilled slot system true
                          ∷ seen b.0
                          ∷ saved slot (scratch_of name) true
                          ∷ published (scratch_of name) name true
                          ∷ [],
                      simp append_assoc,
                      all_done b.0 (is_confirmed-ShownLanded slot b.0 ok2),
                    )
            ]
          ]
        ]
      ]

  admit-Trace :
      (key : Text) (slot : ℕ) (messages : V) (bag : Bag V) (w : W) (log : List (Event V))
      → system_hash J sha256 messages ≡ some (some key)
      → Logs (PrepareTrace J sha256 slot messages bag) log (
          admit J sha256 (watched_backend be) (watched_publisher pu) key slot messages bag (w, log))
  unfolding after_gate sight admit after_restore
  admit-Trace key slot messages bag w log h =
      let a = be.slots w in
      let b = be.restore_slot slot (seed_blob_name key) a.1 in
      elim (Bool-cases (is_open (reported slot a.0))) [
        | inr shut ↦ rw shut (seen a.0 ∷ [], refl, gated a.0 shut)
        | inl opened ↦ elim (Bool-cases (is_cached (lookup key bag))) [
          | inl hit ↦
              rw (opened, hit)
                (
                  seen a.0 ∷ restored_into slot (seed_blob_name key) (is_ok b.0) ∷ [],
                  simp append_assoc,
                  second_sight key a.0 (is_ok b.0) h (is_open-ShownIdle slot a.0 opened) hit,
                )
          | inr miss ↦
              rw (opened, miss)
                (let (new, e, t) = dance-Trace key slot messages bag a.1 (log ++ (seen a.0 ∷ [])) in
                  (
                    seen a.0 ∷ new,
                    e ∙ append_assoc log (seen a.0 ∷ []) new,
                    danced key a.0 h (is_open-ShownIdle slot a.0 opened) miss t,
                  ))
        ]
      ]

  -- If SHA-256 gives 32 bytes: whatever the backend and the publisher answer, `prepare` returns,
  -- and its calls and its result follow the protocol. Nothing is restored, prefilled or saved
  -- unless the slot was just reported idle; a cached family is restored, and neither prefilled
  -- nor saved; any other family is prefilled, then looked at, then saved if it stands idle at a
  -- position that is not 0, then published; and the result is `seeded` exactly when all of that
  -- succeeded.
  pub prepare-PrepareTrace :
      IsDigest sha256
      → (slot : ℕ) (messages : V) (d : Dance (Watched W V) V)
      → (p : SeedResult × Dance (Watched W V) V) × (prepare J sha256
            (watched_backend be)
            (watched_publisher pu)
            slot
            messages
            d
          ≡ some p)
        × Logs (PrepareTrace J sha256 slot messages d.bag) d.world.1 p
  unfolding prepare
  prepare-PrepareTrace lawful slot messages d =
      by_hash (system_hash-total J sha256 lawful messages).0
        (system_hash-total J sha256 lawful messages).1
    where
      by_hash :
          (h : Option Text)
          → system_hash J sha256 messages ≡ some h
          → (p : SeedResult × Dance (Watched W V) V) × (prepare J sha256
                (watched_backend be)
                (watched_publisher pu)
                slot
                messages
                d
              ≡ some p)
            × Logs (PrepareTrace J sha256 slot messages d.bag) d.world.1 p
      by_hash none e =
          ((skipped, d), rw (e, prepare), ([], sym (append-nil d.world.1), no_system e))
      by_hash (some key) e = (
        admit J sha256 (watched_backend be) (watched_publisher pu) key slot messages d.bag d.world,
        rw (e, prepare),
        admit-Trace key slot messages d.bag d.world.0 d.world.1 e,
      )
