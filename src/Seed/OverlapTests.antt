-- ===== src/Seed/OverlapTests.antt =====
-- Admissions of one family over the scripted backend, and the theorems about their steps at them.
use o_llm.Common.{
  Bool, true, Result, ok, err, ℕ, ◌⊎◌, refl, false, List, [], ◌∷◌, nat_eq, if◌then◌else◌,
}
use o_llm.Common.Text.{Text, codes, text_eq}
use o_llm.Common.Dict.{lookup, insert}
use o_llm.Json.Sample.{Value, string, array, object, cons, nil, field, end, sample_json as J}
use o_llm.Backend.{SlotState, Backend}
use o_llm.Backend.Fake.{fake_prefill_only, fake_save_slot, fake_restore_slot}
use o_llm.Seed.{Publisher, seed_blob_name, open_entry, mark_cached}
use o_llm.Seed.Memory.{memory_publish, Bench, bench_backend, bench_publisher}
use o_llm.Seed.Overlap.{Admission, gating, Dancers, seed_step, take_step, overlap}
use o_llm.Seed.Cached.{IsCached, HasSeeded, overlap-IsCached}
use o_llm.Seed.Pair.{of_family, fresh_start, at_once}

abbrev key : Text
key = codes "k"

abbrev system : Value
system = object (field (codes "role") (string (codes "system")) end)

-- The admission `i` has the slot `i`.
abbrev who : ℕ → Admission Value
who i = record {
  key = key;
  slot = i;
  messages = object (field (codes "messages") (array (cons system nil)) end);
}

abbrev idle : ℕ → SlotState
idle i = record { id = i; is_processing = false; n_tokens = 0 }

abbrev bench : Bench
bench = record {
  backend = record {
    states = idle 0 ∷ idle 1 ∷ [];
    calls = [];
    prefill_delta = 42;
    fail_save = false;
    fail_prefill = false;
  };
  publisher = record { files = []; publish_calls = []; fail = false };
}

abbrev start : Dancers Bench Value
start = record { pcs = λ i. gating; dance = record { bag = []; world = bench } }

-- Both begin the dance, and the first one ends it.
abbrev order : List ℕ
order = 0 ∷ 1 ∷ 0 ∷ 1 ∷ 0 ∷ 1 ∷ 0 ∷ 0 ∷ 0 ∷ 0 ∷ 0 ∷ []

overlap-IsCached_example :
    IsCached key start.dance
    ⊎ HasSeeded J
        (bench_backend J)
        bench_publisher
        who
        key
        (overlap J (bench_backend J) bench_publisher who order start)
unfolding overlap take_step seed_step open_entry mark_cached seed_blob_name fake_prefill_only
    fake_save_slot fake_restore_slot memory_publish lookup insert
overlap-IsCached_example =
    overlap-IsCached J (bench_backend J) bench_publisher who order key start refl

-- A disk, as the names that are there.
abbrev Disk : Type 0
Disk = Text → Bool

abbrev put : Text → Disk → Disk
put a w n = if text_eq a n then true else w n

abbrev remove : Text → Disk → Disk
remove a w n = if text_eq a n then false else w n

-- Two slots, idle at position 5, and a server that saves to the disk.
abbrev resting : ℕ → SlotState
resting i = record { id = i; is_processing = false; n_tokens = 5 }

abbrev disk_backend : Backend Disk Value
disk_backend = record {
  slots = λ w. (ok (resting 0 ∷ resting 1 ∷ []), w);
  prefill_only = λ slot messages w. (ok messages, w);
  save_slot = λ slot name w. (ok system, put name w);
  restore_slot = λ slot name w. (ok system, w);
  chat = λ body w. (ok (record { status = 200; stream = [] }), w);
}

-- `rename`
abbrev rename : Text → Text → Disk → Result (Unit {0}) Text × Disk
rename a b w = if w a then (ok tt, put b (remove a w)) else (err (codes "no such file"), w)

abbrev disk_publisher : Publisher Disk
disk_publisher = record { publish = rename }

abbrev slots : ℕ → ℕ
slots i = if nat_eq i 0 then 0 else 1

abbrev requests : ℕ → Value
requests i = (who i).messages

abbrev both_twice : List ℕ → Dancers Disk Value
both_twice last =
    overlap J disk_backend disk_publisher (of_family key slots requests) (at_once last)
      (fresh_start (record { bag = []; world = λ n. false }))
