-- ===== src/Seed/Overlap.antt =====
-- Admissions of src/seed.rs that overlap: `SeedDance::prepare` as steps, each from one await on
-- the server, the publisher or a lock of the bag to the next. The bag and the world are shared;
-- there is no other lock between the steps.
use o_llm.Common.{ℕ, zero, suc, Bool, List, [], ◌∷◌, is_ok, if◌then◌else◌}
use o_llm.Common.Text.{Text}
use o_llm.Common.Family.{replace}
use o_llm.Common.Dict.{lookup, insert, name_eq}
use o_llm.Json.{Json}
use o_llm.Backend.{Backend}
use o_llm.Seed.{
  Dance, Publisher, SeedResult, restored, cold_prefill, seeded, failure, skipped, seed_blob_name,
  scratch_of, is_open, is_confirmed, reported, is_cached, mark_cached, open_entry, mark_failed,
}

-- An admission of a request whose family is known: the key, the slot and the request.
pub record Admission (V : Type 0) : Type 0 where
  pub key : Text
  pub slot : ℕ
  pub messages : V

-- Where an admission stands: what it does next, or how it ended.
pub data SeedPc (V : Type 0) : Type 0 where
  gating looking restoring opening confirming saving publishing caching failing : SeedPc V
  prefilling : V → SeedPc V
  ended : SeedResult → SeedPc V

module _ {W V : Type 0} (J : Json V) (be : Backend W V) (pu : Publisher W) (a : Admission V) where
  -- An answer of the server or the publisher decides between two next steps.
  abbrev pub answered :
      {A : Type 0} → Dance W V → (A → Bool) → SeedPc V → SeedPc V → A × W → SeedPc V × Dance W V
  answered d test then_pc else_pc (r, w) =
      (if test r then then_pc else else_pc, record d { world = w })

  unfoldable pub seed_step : SeedPc V → Dance W V → SeedPc V × Dance W V
  seed_step gating d =
      answered d (λ r. is_open (reported a.slot r)) looking (ended skipped) (be.slots d.world)
  seed_step looking d = (if is_cached (lookup a.key d.bag) then restoring else opening, d)
  seed_step restoring d =
      answered d is_ok (ended restored) (ended cold_prefill)
        (be.restore_slot a.slot (seed_blob_name a.key) d.world)
  seed_step opening d =
      let e = open_entry J a.messages (lookup a.key d.bag) in
      (prefilling e.system, record d { bag = insert a.key e d.bag })
  seed_step (prefilling system) d =
      answered d is_ok confirming failing (be.prefill_only a.slot system d.world)
  seed_step confirming d =
      answered d (λ r. is_confirmed (reported a.slot r)) saving failing (be.slots d.world)
  seed_step saving d =
      answered d is_ok publishing failing
        (be.save_slot a.slot (scratch_of (seed_blob_name a.key)) d.world)
  seed_step publishing d =
      answered d is_ok caching failing
        (pu.publish (scratch_of (seed_blob_name a.key)) (seed_blob_name a.key) d.world)
  seed_step caching d = (ended seeded, record d { bag = mark_cached a.key d.bag })
  seed_step failing d = (ended failure, record d { bag = mark_failed J a.key d.bag })
  seed_step (ended r) d = (ended r, d)

  unfoldable pub seed_steps : ℕ → SeedPc V × Dance W V → SeedPc V × Dance W V
  seed_steps zero p = p
  seed_steps (suc n) (pc, d) = seed_steps n (seed_step pc d)

-- Any number of admissions, and the orders of their steps.
pub record Dancers (W V : Type 0) : Type 0 where
  pub pcs : ℕ → SeedPc V
  pub dance : Dance W V

module _ {W V : Type 0} (J : Json V) (be : Backend W V) (pu : Publisher W)
    (who : ℕ → Admission V) where
  unfoldable pub take_step : ℕ → Dancers W V → Dancers W V
  take_step i s =
      let (pc, d) = seed_step J be pu (who i) (s.pcs i) s.dance in
      record { pcs = replace s.pcs i pc; dance = d }

  -- The state after the steps of these admissions, in this order.
  unfoldable pub overlap : List ℕ → Dancers W V → Dancers W V
  overlap [] s = s
  overlap (i ∷ order) s = overlap order (take_step i s)
