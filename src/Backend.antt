-- ===== src/Backend.antt =====
-- The backend seam of src/backend.rs: `SlotState`, `ChatOutcome` and the trait `Backend`.
-- A method takes the state of the world and returns its result with the new state; the text of
-- an error is kept, a stream of chunks is the list of what it will yield.
pub mod Fake
pub mod Llama
use o_llm.Common.{ℕ, Bool, Option, List, Result, nat_eq, find, not, true, false, some, none}
use o_llm.Common.Text.{Text}

pub record SlotState : Type 0 where
  pub id : ℕ
  pub is_processing : Bool
  pub n_tokens : ℕ

pub record ChatOutcome : Type 0 where
  pub status : ℕ
  pub stream : List (Result (List ℕ) Text)

-- The trait, over the state `W` of the world and the values `V` of `serde_json`.
pub record Backend (W V : Type 0) : Type 0 where
  pub slots : W → Result (List SlotState) Text × W
  pub prefill_only : ℕ → V → W → Result V Text × W
  pub save_slot : ℕ → Text → W → Result V Text × W
  pub restore_slot : ℕ → Text → W → Result V Text × W
  pub chat : V → W → Result ChatOutcome Text × W

-- `states.into_iter().find(|s| s.id == slot)`
abbrev pub find_slot : ℕ → List SlotState → Option SlotState
find_slot slot = find (λ s. nat_eq s.id slot)
