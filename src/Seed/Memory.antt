-- ===== src/Seed/Memory.antt =====
-- The in-memory publisher of src/seed.rs, and the two seams over one world: the scripted backend
-- of src/fake.rs beside it, as the protocol tests use them.
use o_llm.Common.{Bool, List, [], ◌∷◌, ◌++◌, Result, ok, err, if◌then◌else◌}
use o_llm.Common.Text.{Text, codes}
use o_llm.Common.Dict.{Dict, insert, name_eq}
use o_llm.Json.{Json}
use o_llm.Backend.{Backend}
use o_llm.Backend.Fake.{
  FakeBackend, fake_slots, fake_prefill_only, fake_save_slot, fake_restore_slot, fake_chat,
}
use o_llm.Seed.{Publisher}

pub record MemoryPublisher : Type 0 where
  pub files : Dict Text Text
  pub publish_calls : List (Text × Text)
  pub fail : Bool

unfoldable pub memory_publish :
    Text → Text → MemoryPublisher → Result (Unit {0}) Text × MemoryPublisher
memory_publish scratch final_name p =
    if p.fail then (err (codes "simulated publish failure (" ++ (scratch ++ codes ")")), p) else (
      ok tt,
      record p {
        files = insert final_name scratch p.files;
        publish_calls = p.publish_calls ++ ((scratch, final_name) ∷ []);
      },
    )

-- The world of a protocol test.
pub record Bench : Type 0 where
  pub backend : FakeBackend
  pub publisher : MemoryPublisher

abbrev pub on_backend {ℓ} : {A : Type ℓ} → (FakeBackend → A × FakeBackend) → Bench → A × Bench
on_backend m b = let (a, f) = m b.backend in (a, record b { backend = f })

module _ {V : Type 0} (J : Json V) where
  abbrev pub bench_backend : Backend Bench V
  bench_backend = record {
    slots = on_backend (fake_slots J);
    prefill_only = λ slot messages. on_backend (fake_prefill_only J slot messages);
    save_slot = λ id name. on_backend (fake_save_slot J id name);
    restore_slot = λ id name. on_backend (fake_restore_slot J id name);
    chat = λ body. on_backend (fake_chat J body);
  }

abbrev pub bench_publisher : Publisher Bench
bench_publisher = record {
  publish = λ scratch name b.
      let (r, p) = memory_publish scratch name b.publisher in (r, record b { publisher = p });
}
