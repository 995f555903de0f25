-- ===== src/Seed/Roundtrip.antt =====
-- The dance over the scripted backend and the in-memory publisher: it seeds, also after a failure,
-- and the next admission restores what was seeded.
use mathlib.Core.List.{append_assoc}
use o_llm.Common.{ℕ, ◌<◌, ◌≡◌, ap, ◌∙◌, true, false, some, List, [], ◌∷◌, ◌++◌, arith}
use o_llm.Common.Text.{Text, text_eq_refl}
use o_llm.Common.Dict.{lookup, insert, name_eq, lookup-insert}
use o_llm.Json.{Json}
use o_llm.Backend.{SlotState, find_slot}
use o_llm.Backend.Fake.{
  Call, saturating_add, advance, fake_prefill_only, fake_save_slot, fake_restore_slot, count_of,
}
use o_llm.Seed.{
  Bag, BagEntry, cached, restored, seeded, Dance, is_open, is_confirmed, seed_blob_name, scratch_of,
  system_hash, open_entry, is_cached, mark_cached, dance, admit, prepare,
}
use o_llm.Seed.Memory.{memory_publish, Bench, bench_backend, bench_publisher}

-- The script makes every step succeed: the slot is there and idle, the prompt lands, and neither
-- the save nor the publication fails.
pub record IsWilling (slot : ℕ) (b : Bench) : Type 0 where
  pub idle : is_open (find_slot slot b.backend.states) ≡ true
  pub lands : 0 < b.backend.prefill_delta
  pub prefills : b.backend.fail_prefill ≡ false
  pub saves : b.backend.fail_save ≡ false
  pub publishes : b.publisher.fail ≡ false

saturating_add-pos : (a b : ℕ) → 0 < b → 0 < saturating_add a b
unfolding saturating_add
saturating_add-pos a b h = ground arith

advance-is_confirmed :
    (slot delta : ℕ) (states : List SlotState)
    → 0 < delta
    → is_open (find_slot slot states) ≡ true
    → is_confirmed (find_slot slot (advance slot delta states)) ≡ true
unfolding advance
advance-is_confirmed slot delta [] h i = cc
advance-is_confirmed slot delta (s ∷ states) h i =
    ground (arith, saturating_add-pos s.n_tokens delta h, advance-is_confirmed slot delta states)

advance-is_open :
    (slot delta : ℕ) (states : List SlotState)
    → is_open (find_slot slot states) ≡ true
    → is_open (find_slot slot (advance slot delta states)) ≡ true
unfolding advance
advance-is_open slot delta [] i = cc
advance-is_open slot delta (s ∷ states) i = ground (arith, advance-is_open slot delta states)

module _ {V : Type 0} (J : Json V) (sha256 : List ℕ → List ℕ) (slot : ℕ) (messages : V) (key : Text)
    (hashed : system_hash J sha256 messages ≡ some (some key)) where
  abbrev entry_after : Bag V → BagEntry V
  entry_after bag = open_entry J messages (lookup key bag)

  -- The world after a dance in which every step succeeds.
  abbrev world_after : Bag V → Bench → Bench
  world_after bag b =
      let f = b.backend in
      let name = seed_blob_name key in
      record {
        backend = record f {
          states = advance slot f.prefill_delta f.states;
          calls =
              ((f.calls ++ (Call.slots ∷ []))
                ++ (Call.prefill_only slot (count_of J (J.as_array (entry_after bag).system)) ∷ [])
                ++ (Call.slots ∷ []))
              ++ (Call.save slot (scratch_of name) ∷ []);
        };
        publisher = record b.publisher {
          files = insert name (scratch_of name) b.publisher.files;
          publish_calls = b.publisher.publish_calls ++ ((scratch_of name, name) ∷ []);
        };
      }

  abbrev dance_after : Dance Bench V → Dance Bench V
  dance_after d = record {
    bag = mark_cached key (insert key (entry_after d.bag) d.bag);
    world = world_after d.bag d.world;
  }

  admit-seeds :
      (d : Dance Bench V)
      → IsWilling slot d.world
      → is_cached (lookup key d.bag) ≡ false
      → admit J sha256 (bench_backend J) bench_publisher key slot messages d.bag d.world
        ≡ (seeded, dance_after d)
  unfolding admit dance fake_prefill_only fake_save_slot memory_publish
  admit-seeds d w new = rw (
    w.idle,
    new,
    w.prefills,
    advance-is_confirmed slot d.world.backend.prefill_delta d.world.backend.states w.lands w.idle,
    w.saves,
    w.publishes,
  )

  mark_cached-is_cached :
      (e : BagEntry V) (bag : Bag V)
      → is_cached (lookup key (mark_cached key (insert key e bag))) ≡ true
  unfolding mark_cached
  mark_cached-is_cached e bag =
      let found : lookup key (insert key e bag) ≡ some e =
        lookup-insert key key e bag ∙ rw (text_eq_refl key) in
      rw (found, mark_cached)
        (rw (
          lookup-insert key key (record e { state = cached }) (insert key e bag),
          text_eq_refl key,
        ))

  -- A second admission of the family, by any request that has its key.
  admit-restores :
      (messages' : V) (d : Dance Bench V)
      → IsWilling slot d.world
      → is_cached (lookup key d.bag) ≡ true
      → admit J sha256 (bench_backend J) bench_publisher key slot messages' d.bag d.world ≡ (
        restored,
        record d {
          world = record d.world {
            backend = record d.world.backend {
              calls =
                  (d.world.backend.calls ++ (Call.slots ∷ []))
                  ++ (Call.restore slot (seed_blob_name key) ∷ []);
            };
          };
        },
      )
  unfolding admit fake_restore_slot
  admit-restores messages' d w hit = rw (w.idle, hit)

-- If the script lets every step succeed: a family that is not cached, new or failed before, is
-- seeded, and its blob is published under its name; then any request of the family on that slot
-- is answered from the blob, with a look at the slot and a restore, and no prefill or save.
pub prepare-seed_then_restore :
    {V : Type 0} (J : Json V) (sha256 : List ℕ → List ℕ) (slot : ℕ) (first second : V) (key : Text)
    (d : Dance Bench V)
    → system_hash J sha256 first ≡ some (some key)
    → system_hash J sha256 second ≡ some (some key)
    → IsWilling slot d.world
    → is_cached (lookup key d.bag) ≡ false
    → (d' d'' : Dance Bench V) × (prepare J sha256 (bench_backend J) bench_publisher slot first d
        ≡ some (seeded, d'))
      × (lookup (seed_blob_name key) d'.world.publisher.files
          ≡ some (scratch_of (seed_blob_name key)))
      × (prepare J sha256 (bench_backend J) bench_publisher slot second d' ≡ some (restored, d''))
      × (d''.world.backend.calls
          ≡ d'.world.backend.calls ++ (Call.slots ∷ Call.restore slot (seed_blob_name key) ∷ []))
unfolding prepare
prepare-seed_then_restore J sha256 slot first second key d h h' w new =
    let d' = dance_after J sha256 slot first key h d in
    let w' : IsWilling slot d'.world = record {
      idle = advance-is_open slot d.world.backend.prefill_delta d.world.backend.states w.idle;
      lands = w.lands;
      prefills = w.prefills;
      saves = w.saves;
      publishes = w.publishes;
    } in
    (
      d',
      (record d' {
        world = record d'.world {
          backend = record d'.world.backend {
            calls =
                (d'.world.backend.calls ++ (Call.slots ∷ []))
                ++ (Call.restore slot (seed_blob_name key) ∷ []);
          };
        };
      }),
      rw (h, prepare) (ap some (admit-seeds J sha256 slot first key h d w new)),
      lookup-insert (seed_blob_name key) (seed_blob_name key) _ _
          ∙ rw (text_eq_refl (seed_blob_name key)),
      rw (h', prepare)
          (ap some (
            admit-restores J sha256 slot first key h second d' w'
              (mark_cached-is_cached J sha256 slot first key h _ d.bag))),
      append_assoc d'.world.backend.calls (Call.slots ∷ [])
          (Call.restore slot (seed_blob_name key) ∷ []),
    )
