-- ===== src/Seed/Twice.antt =====
-- One family seeded twice at once (src/seed.rs): the rounds of two admissions of it, which share the
-- name of the scratch file.
use o_llm.Common.{ℕ, ◌≡◌, Bool}
use o_llm.Common.Text.{Text}
use o_llm.Common.Dict.{name_eq}
use o_llm.Json.{Json}
use o_llm.Backend.{Backend}
use o_llm.Seed.{Dance, Publisher, scratch_of, seed_blob_name}
use o_llm.Seed.Overlap.{Admission, SeedPc, Dancers, seed_step, take_step}
use o_llm.Seed.Pair.{of_family, IsIdle, MovesFiles}

module _ {W V : Type 0} (J : Json V) (be : Backend W V) (pu : Publisher W) (key : Text)
    (slots : ℕ → ℕ) (messages : ℕ → V) (idle : IsIdle be slots) where
  abbrev who : ℕ → Admission V
  who = of_family key slots messages

  abbrev step : ℕ → Dancers W V → Dancers W V
  step i s = take_step J be pu who i s

  -- Both take a step.
  abbrev both : Dancers W V → Dancers W V
  both s = step 1 (step 0 s)

  abbrev Stand : Dancers W V → SeedPc V → SeedPc V → Type 0
  Stand s p q = (s.pcs 0 ≡ p) × (s.pcs 1 ≡ q)

  abbrev next : ℕ → SeedPc V → Dance W V → SeedPc V × Dance W V
  next i pc d = seed_step J be pu (who i) pc d

  -- A step that goes the same way whatever the bag and the world.
  abbrev Goes : SeedPc V → SeedPc V → Type 0
  Goes p r = (i : ℕ) (d : Dance W V) → (next i p d).0 ≡ r

  abbrev scratch : Text
  scratch = scratch_of (seed_blob_name key)

  module _ (exists : Text → W → Bool) (moves : MovesFiles be pu slots exists) where
    abbrev blob : Text
    blob = seed_blob_name key

    -- Seven steps of each.
    abbrev seven : Dancers W V → Dancers W V
    seven s = both (both (both (both (both (both (both s))))))
