-- ===== src/Seed/Pair.antt =====
-- What two admissions of one family meet (src/seed.rs): their keys, their slots, and a server and a
-- publisher that do what they are asked.
use o_llm.Common.{
  length, length-append, arith, ℕ, ◌≡◌, refl, ap, Bool, true, false, not, ◌&&◌, ltb, Option, none,
  some, List, ◌∷◌, is_ok,
}
use o_llm.Common.Text.{Text, text_eq, text_eq_of_ne, codes}
use o_llm.Common.Dict.{name_eq}
use o_llm.Backend.{Backend, SlotState}
use o_llm.Seed.{
  BagState, Dance, Publisher, seeded, failure, scratch_of, seed_blob_name, is_open, is_confirmed,
  reported, state_of,
}
use o_llm.Seed.Overlap.{Admission, gating, ended, Dancers}

-- The admissions of one family, each with its slot and its request.
abbrev pub of_family : {V : Type 0} → Text → (ℕ → ℕ) → (ℕ → V) → ℕ → Admission V
of_family key slots messages i = record { key = key; slot = slots i; messages = messages i }

-- All of them wait for the slot gate.
abbrev pub fresh_start : {W V : Type 0} → Dance W V → Dancers W V
fresh_start d = record { pcs = λ i. gating; dance = d }

-- A server whose slots stand idle at positions past 0, and that prefills and saves.
pub record IsIdle {W V : Type 0} (be : Backend W V) (slots : ℕ → ℕ) : Type 0 where
  pub confirms : (i : ℕ) (w : W) → is_confirmed (reported (slots i) (be.slots w).0) ≡ true
  pub prefills : (i : ℕ) (v : V) (w : W) → is_ok (be.prefill_only (slots i) v w).0 ≡ true
  pub saves : (i : ℕ) (n : Text) (w : W) → is_ok (be.save_slot (slots i) n w).0 ≡ true

-- A publisher that moves files, as `FsPublisher` does on a disk without errors: a scratch file that
-- was just saved can be published, which puts it under the new name and takes the old name away; a
-- publication that fails does not take the new name away.
pub record MovesFiles {W V : Type 0} (be : Backend W V) (pu : Publisher W) (slots : ℕ → ℕ)
    (exists : Text → W → Bool) : Type 0 where
  pub saved :
      (i : ℕ) (a b : Text) (w : W)
      → is_ok (be.save_slot (slots i) a w).0 ≡ true
      → is_ok (pu.publish a b (be.save_slot (slots i) a w).1).0 ≡ true
  pub gone :
      (a b : Text) (w : W)
      → text_eq a b ≡ false
      → is_ok (pu.publish a b w).0 ≡ true
      → is_ok (pu.publish a b (pu.publish a b w).1).0 ≡ false
  pub there :
      (a b : Text) (w : W)
      → is_ok (pu.publish a b w).0 ≡ true
      → exists b (pu.publish a b w).1 ≡ true
  pub kept :
      (a b : Text) (w : W)
      → is_ok (pu.publish a b w).0 ≡ false
      → exists b w ≡ true
      → exists b (pu.publish a b w).1 ≡ true

-- They take seven steps each in turn, and then these.
abbrev pub at_once : List ℕ → List ℕ
at_once last = 0 ∷ 1 ∷ 0 ∷ 1 ∷ 0 ∷ 1 ∷ 0 ∷ 1 ∷ 0 ∷ 1 ∷ 0 ∷ 1 ∷ 0 ∷ 1 ∷ last

-- How the two end: the first seeded and the second failed, with the blob there and the family in
-- this state.
abbrev pub IsOver : {W V : Type 0} → Text → (Text → W → Bool) → BagState → Dancers W V → Type 0
IsOver key exists state s =
    (s.pcs 0 ≡ ended seeded)
    × (s.pcs 1 ≡ ended failure)
    × (exists (seed_blob_name key) s.dance.world ≡ true)
    × (state_of key s.dance.bag ≡ some state)

pub scratch-ne : (name : Text) → text_eq (scratch_of name) name ≡ false
scratch-ne name =
    text_eq_of_ne (scratch_of name) name
      (λ e. omega (arith, ap length e, length-append {0} name (codes ".save")))

pub opens : (o : Option SlotState) → is_confirmed o ≡ true → is_open o ≡ true
opens none h = absurd cc
opens (some s) h = by_test s.is_processing h
  where
    by_test : (b : Bool) → (not b && ltb 0 s.n_tokens) ≡ true → not b ≡ true
    by_test false e = refl
    by_test true e = absurd cc
