-- ===== src/Tasks/Examples.antt =====
-- Two requests over the sample world, and the theorems at them.
use o_llm.Common.{
  ℕ, zero, suc, ◌≤◌, ◌<◌, ◌≡◌, ◌⊎◌, refl, Bool, true, false, Option, none, some, List, [], ◌∷◌,
  arith,
}
use o_llm.Common.Text.{codes}
use o_llm.Common.Dict.{lookup, insert}
use o_llm.Json.Sample.{Value, object, end, sample_json as J}
use o_llm.Backend.{SlotState}
use o_llm.Slots.{owned_slot, pick_free, entry_of}
use o_llm.Slots.Views.{hold_of}
use o_llm.Publish.{Router}
use o_llm.Publish.Sample.{World, sample_disk as disk, sample_backend as be}
use o_llm.Chat.{after_report, pump, run_turn, admission}
use o_llm.Chat.Steer.{HasOwners}
use o_llm.Chat.Sample.{sig, cache, lib, cfg}
use o_llm.Tasks.{Turn, Pc, waiting, sending, done, Shared, save_step, relayed, advance}
use o_llm.Tasks.System.{System, Reach, start_of, run, here, later}
use o_llm.Tasks.Counting.{reads, writes}
use o_llm.Tasks.Exclusion.{Reach-exclusive}
use o_llm.Tasks.Completion.{IsDone, CanStep, own_steps, own_steps-le, Reach-progress}
use o_llm.Tasks.Owners.{IsTidy, Reach-IsTidy}
use o_llm.Tasks.Alone.{run_alone, at}
use o_llm.Tasks.Handler.{run_alone-run_turn}
use o_llm.Tasks.Race.{both_steered}

abbrev idle : SlotState
idle = record { id = 1; is_processing = false; n_tokens = 5 }

abbrev empty : Router World
empty = record { slots = []; world = record { files = []; states = idle ∷ []; cells = λ i. i } }

abbrev turns : ℕ → Turn Value
turns zero = record { session = codes "a"; parsed = object end; takes = 1 }
turns (suc i) = record { session = codes "b"; parsed = object end; takes = 1 }

empty-HasOwners : HasOwners empty.slots
unfolding hold_of entry_of lookup
empty-HasOwners j d = absurd cc

abbrev SystemOf : System World → Type 0
SystemOf = Reach J lib disk cache be cfg turns 2 (start_of empty)

-- The state after steps of the requests in the order given, the last one first.
second : Bool → ℕ
second false = 0
second true = 1

second-less : (b : Bool) → second b < 2
unfolding second
second-less false = omega arith
second-less true = omega arith

grow :
    (x : System World) (b : Bool) (o : Option (Pc × Shared World))
    → SystemOf x
    → advance J lib disk cache be cfg (turns (second b)) (x.pc (second b)) x.shared ≡ o
    → (z : System World) × SystemOf z
grow x b none a e = (x, a)
grow x b (some y) a e = (_, later a (run (second b) (second-less b) e))

play : List Bool → (x : System World) × SystemOf x
unfolding grow second
play [] = (start_of empty, here)
play (b ∷ order) =
    let (x, a) = play order in
    grow x b (advance J lib disk cache be cfg (turns (second b)) (x.pc (second b)) x.shared) a refl

-- The first request is in its last save, the second waits at the gate.
abbrev in_save : (x : System World) × SystemOf x
in_save = play (true ∷ false ∷ false ∷ false ∷ false ∷ false ∷ false ∷ false ∷ false ∷ false ∷ [])

in_save_lem : writes (in_save.0.pc 0) ≡ 1
unfolding play advance save_step after_report owned_slot pick_free entry_of lookup insert relayed
    pump
in_save_lem = refl

Reach-exclusive_example : (reads (in_save.0.pc 1) ≡ 0) × (writes (in_save.0.pc 1) ≡ 0)
Reach-exclusive_example =
    Reach-exclusive J lib disk cache be cfg turns 2 empty in_save.0 0 1 in_save.1 (omega arith)
      (omega arith) refl in_save_lem

Reach-progress_example :
    IsDone (in_save.0.pc 1)
    ⊎ ((j : ℕ) × (j < 2)
        × CanStep J lib disk cache be cfg (turns j) (in_save.0.pc j) in_save.0.shared)
Reach-progress_example =
    Reach-progress J lib disk cache be cfg turns 2 empty in_save.0 1 in_save.1 (omega arith)

own_steps-le_example : own_steps J lib disk cache be cfg turns 2 in_save.1 ≤ 46
own_steps-le_example = own_steps-le J lib disk cache be cfg turns 2 empty in_save.0 in_save.1

Reach-IsTidy_example : IsTidy in_save.0.shared.router.slots
Reach-IsTidy_example =
    Reach-IsTidy J lib disk cache be cfg turns 2 empty in_save.0 (empty-HasOwners, tt) in_save.1

run_alone-run_turn_example :
    run_alone J lib disk cache be cfg
      (turns 0)
      23
      (waiting, at J lib disk cache be cfg (turns 0) empty)
    ≡ (
      done
          (run_turn J lib disk cache be cfg 1
            (codes "a")
            (object end)
            (admission disk be sig (codes "a") empty)).0,
      at J lib disk cache be cfg
          (turns 0)
          (run_turn J lib disk cache be cfg 1
            (codes "a")
            (object end)
            (admission disk be sig (codes "a") empty)).1,
    )
run_alone-run_turn_example = run_alone-run_turn J lib disk cache be cfg (turns 0) empty

both_steered_example :
    (z : System World) × SystemOf z
    × (z.pc 0 ≡ sending (some 1))
    × (z.pc 1 ≡ sending (some 1))
    × (hold_of 1 z.shared.router.slots ≡ (some (codes "b"), true))
unfolding owned_slot pick_free entry_of lookup insert
both_steered_example =
    both_steered J lib disk cache be cfg turns 2 empty 0 1 1 (idle ∷ []) (omega arith) (omega arith)
      refl refl refl refl refl refl refl
