-- ===== src/Seed/Examples.antt =====
-- The protocol tests of src/seed.rs over the scripted backend, and the theorems at concrete inputs.
use mathlib.Core.Option
use o_llm.Common.{◌≡◌, ◌≢◌, refl, false, Option, none, some, List, [], ◌∷◌, ◌++◌, arith}
use o_llm.Common.Text.{Text, codes}
use o_llm.Common.Dict.{lookup, insert, name_eq}
use o_llm.Json.Sample.{
  Value, string, array, object, cons, nil, field, end, sample_json as J, sample_sha256 as sha,
  sample_sha256-IsDigest as lawful,
}
use o_llm.Key.{
  hex, slice_to, is_system, messages_of, session_key, fallback_key, blob_name, digest_input,
}
use o_llm.Backend.{SlotState}
use o_llm.Backend.Fake.{Call, fake_prefill_only, fake_save_slot, fake_restore_slot}
use o_llm.Seed.{
  failed, SeedResult, restored, seeded, failure, skipped, Dance, seed_blob_name, scratch_of,
  system_hash, hex16, open_entry, mark_cached, mark_failed, dance, admit, prepare,
}
use o_llm.Seed.Memory.{memory_publish, Bench, bench_backend, bench_publisher}
use o_llm.Seed.Trace.{Watched, watched_backend, watched_publisher, PrepareTrace}
use o_llm.Seed.Protocol.{Logs, prepare-PrepareTrace}
use o_llm.Seed.Bag.{BagStep, prepare-BagStep}
use o_llm.Seed.Names.{seed_blob_name-ne-blob_name}
use o_llm.Seed.Roundtrip.{IsWilling, prepare-seed_then_restore}

abbrev message : Text → Text → Value
message role content =
    object (field (codes "role") (string role) (field (codes "content") (string content) end))

abbrev request : Text → Text → Value
request system user = object (
    field (codes "messages")
      (array (cons (message (codes "system") system) (cons (message (codes "user") user) nil))) end)

abbrev first : Value
first = request (codes "sys") (codes "a")

abbrev second : Value
second = request (codes "sys") (codes "b")

key : Option (Option Text)
unfolding system_hash hex16 slice_to hex messages_of is_system
key = system_hash J sha first

abbrev digits : Text
digits = codes "2828282828282828"

-- Both requests are of one family.
key_lem :
    (system_hash J sha first ≡ some (some digits)) × (system_hash J sha second ≡ some (some digits))
unfolding key
key_lem = (refl, refl)

first_key : system_hash J sha first ≡ some (some digits)
unfolding key
first_key = refl

second_key : system_hash J sha second ≡ some (some digits)
unfolding key
second_key = refl

abbrev idle_slot : SlotState
idle_slot = record { id = 1; is_processing = false; n_tokens = 0 }

-- The bench of `second_sight_restore_zero_prefill`.
abbrev bench : Bench
bench = record {
  backend = record {
    states = idle_slot ∷ [];
    calls = [];
    prefill_delta = 42;
    fail_save = false;
    fail_prefill = false;
  };
  publisher = record { files = []; publish_calls = []; fail = false };
}

abbrev start : Dance Bench Value
start = record { bag = []; world = bench }

-- A family whose seed failed before.
abbrev after_failure : Dance Bench Value
after_failure = record start { bag = (digits, record { system = array nil; state = failed }) ∷ [] }

run : Value → Dance Bench Value → Option (SeedResult × Dance Bench Value)
unfolding prepare key admit dance open_entry mark_cached mark_failed seed_blob_name
    fake_prefill_only fake_save_slot fake_restore_slot memory_publish lookup insert
run request d = prepare J sha (bench_backend J) bench_publisher 1 request d

abbrev result_of : Option (SeedResult × Dance Bench Value) → Option SeedResult
result_of o = Option.map (λ p. p.0) o

abbrev calls_of : Option (SeedResult × Dance Bench Value) → List Call
calls_of none = []
calls_of (some (r, d)) = d.world.backend.calls

seeds : result_of (run first start) ≡ some seeded
unfolding run
seeds = refl

-- prefill_strictly_before_save
calls_lem :
    calls_of (run first start)
    ≡ Call.slots
      ∷ Call.prefill_only 1 1
      ∷ Call.slots
      ∷ Call.save 1 (codes "sys-2828282828282828__seed.bin.save")
      ∷ []
unfolding run
calls_lem = refl

-- never_save_unconfirmed_position
unconfirmed_lem :
    result_of (
      run first (record start {
        world = record bench { backend = record bench.backend { prefill_delta = 0 } };
      }))
    ≡ some failure
unfolding run
unconfirmed_lem = refl

bench-IsWilling : IsWilling 1 bench
bench-IsWilling = record {
  idle = refl;
  lands = omega arith;
  prefills = refl;
  saves = refl;
  publishes = refl;
}

abbrev watched_start : Dance (Watched Bench Value) Value
watched_start = record { bag = []; world = (bench, []) }

prepare-PrepareTrace_example :
    (p : SeedResult × Dance (Watched Bench Value) Value) × (prepare J sha
        (watched_backend (bench_backend J))
        (watched_publisher bench_publisher)
        1
        first
        watched_start
      ≡ some p)
    × Logs (PrepareTrace J sha 1 first []) [] p
prepare-PrepareTrace_example =
    prepare-PrepareTrace J sha (bench_backend J) bench_publisher lawful 1 first watched_start

prepare-BagStep_example : BagStep {V = Value} digits [] skipped []
unfolding run
prepare-BagStep_example =
    prepare-BagStep J sha (bench_backend J) bench_publisher 7 first start digits
      (
        skipped,
        record start {
          world = record bench { backend = record bench.backend { calls = Call.slots ∷ [] } };
        },
      )
      first_key refl

seed_blob_name-ne-blob_name_example :
    seed_blob_name digits ≢ blob_name (codes "conv-2828282828282828") (codes "070707070707")
unfolding session_key fallback_key digest_input key
seed_blob_name-ne-blob_name_example =
    seed_blob_name-ne-blob_name J sha lawful (λ _. none) first (codes "x-session-id")
      (codes "conv-2828282828282828") digits (codes "070707070707") refl

prepare-seed_then_restore_example :
    (d' d'' : Dance Bench Value) × (prepare J sha
        (bench_backend J)
        bench_publisher
        1
        first
        after_failure
      ≡ some (seeded, d'))
    × (lookup (seed_blob_name digits) d'.world.publisher.files
        ≡ some (scratch_of (seed_blob_name digits)))
    × (prepare J sha (bench_backend J) bench_publisher 1 second d' ≡ some (restored, d''))
    × (d''.world.backend.calls
        ≡ d'.world.backend.calls ++ (Call.slots ∷ Call.restore 1 (seed_blob_name digits) ∷ []))
unfolding lookup
prepare-seed_then_restore_example =
    prepare-seed_then_restore J sha 1 first second digits after_failure first_key second_key
      bench-IsWilling refl
