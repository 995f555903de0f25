-- ===== src/Seed/Single.antt =====
-- An admission of src/seed.rs that no other one overlaps: its steps, and `prepare` in one sequence.
use o_llm.Common.{ℕ, ◌≡◌, refl, inl, inr, List, Result, ok, err, is_ok, Bool-cases}
use o_llm.Common.Text.{Text}
use o_llm.Common.Dict.{lookup, insert, name_eq}
use o_llm.Json.{Json}
use o_llm.Backend.{Backend, SlotState}
use o_llm.Seed.{
  Dance, Publisher, SeedResult, seed_blob_name, scratch_of, is_open, is_confirmed, reported,
  is_cached, open_entry, fail, after_publish, after_save, after_confirm, after_prefill, dance,
  after_restore, sight, after_gate, admit, skipped, restored, cold_prefill,
}
use o_llm.Seed.Overlap.{
  Admission, SeedPc, ended, gating, looking, opening, confirming, saving, publishing, caching,
  failing, answered, seed_step, seed_steps,
}

module _ {W V : Type 0} (J : Json V) (sha256 : List ℕ → List ℕ) (be : Backend W V)
    (pu : Publisher W) (a : Admission V) where
  -- The end that an admission in one sequence has.
  abbrev pub end_with : SeedResult × Dance W V → SeedPc V × Dance W V
  end_with (r, d) = (ended r, d)

  abbrev steps : ℕ → SeedPc V × Dance W V → SeedPc V × Dance W V
  steps = seed_steps J be pu a

  published-end :
      (d : Dance W V) (p : Result (Unit {0}) Text × W)
      → steps 1 (answered J be pu a d is_ok caching failing p)
        ≡ end_with (after_publish J sha256 be pu a.key d.bag p)
  unfolding seed_steps seed_step after_publish fail
  published-end d (ok t, w) = refl
  published-end d (err e, w) = refl

  saved-end :
      (d : Dance W V) (p : Result V Text × W)
      → steps 2 (answered J be pu a d is_ok publishing failing p)
        ≡ end_with (after_save J sha256 be pu a.key d.bag p)
  unfolding seed_steps seed_step after_save fail
  saved-end d (ok v, w) =
      published-end (record d { world = w })
        (pu.publish (scratch_of (seed_blob_name a.key)) (seed_blob_name a.key) w)
  saved-end d (err e, w) = refl

  confirmed-end :
      (d : Dance W V) (q : Result (List SlotState) Text) (w : W)
      → steps 3 (answered J be pu a d (λ r. is_confirmed (reported a.slot r)) saving failing (q, w))
        ≡ end_with (after_confirm J sha256 be pu a.key a.slot d.bag (q, w))
  unfolding seed_steps seed_step after_confirm fail
  confirmed-end d q w = elim (Bool-cases (is_confirmed (reported a.slot q))) [
    | inl e ↦ rw e (
        saved-end (record d { world = w })
          (be.save_slot a.slot (scratch_of (seed_blob_name a.key)) w))
    | inr e ↦ rw e refl
  ]

  prefilled-end :
      (d : Dance W V) (p : Result V Text × W)
      → steps 4 (answered J be pu a d is_ok confirming failing p)
        ≡ end_with (after_prefill J sha256 be pu a.key a.slot d.bag p)
  unfolding seed_steps seed_step after_prefill fail
  prefilled-end d (ok v, w) = confirmed-end (record d { world = w }) (be.slots w).0 (be.slots w).1
  prefilled-end d (err e, w) = refl

  opening-end :
      (d : Dance W V)
      → steps 6 (opening, d) ≡ end_with (dance J sha256 be pu a.key a.slot a.messages d.bag d.world)
  unfolding seed_steps seed_step dance
  opening-end d =
      let e = open_entry J a.messages (lookup a.key d.bag) in
      prefilled-end (record d { bag = insert a.key e d.bag })
        (be.prefill_only a.slot e.system d.world)

  restored-end :
      (d : Dance W V) (p : Result V Text × W)
      → steps 5 (answered J be pu a d is_ok (ended restored) (ended cold_prefill) p)
        ≡ end_with (after_restore J sha256 be pu d.bag p)
  unfolding seed_steps seed_step after_restore
  restored-end d (ok v, w) = refl
  restored-end d (err e, w) = refl

  looking-end :
      (d : Dance W V)
      → steps 7 (looking, d) ≡ end_with (sight J sha256 be pu a.key a.slot a.messages d.bag d.world)
  unfolding seed_steps seed_step sight
  looking-end d = elim (Bool-cases (is_cached (lookup a.key d.bag))) [
    | inl e ↦ rw e (restored-end d (be.restore_slot a.slot (seed_blob_name a.key) d.world))
    | inr e ↦ rw e (opening-end d)
  ]

  gated-end :
      (d : Dance W V) (q : Result (List SlotState) Text) (w : W)
      → steps 7
          (answered J be pu a d (λ r. is_open (reported a.slot r)) looking (ended skipped) (q, w))
        ≡ end_with (after_gate J sha256 be pu a.key a.slot a.messages d.bag (q, w))
  unfolding seed_steps seed_step after_gate
  gated-end d q w = elim (Bool-cases (is_open (reported a.slot q))) [
    | inl e ↦ rw e (looking-end (record d { world = w }))
    | inr e ↦ rw e refl
  ]

  -- Eight steps of an admission that is alone do what `admit` does in one sequence, and end it.
  pub seed_steps-admit :
      (d : Dance W V)
      → seed_steps J be pu a 8 (gating, d)
        ≡ end_with (admit J sha256 be pu a.key a.slot a.messages d.bag d.world)
  unfolding seed_steps seed_step admit
  seed_steps-admit d = gated-end d (be.slots d.world).0 (be.slots d.world).1
