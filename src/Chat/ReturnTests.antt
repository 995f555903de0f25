-- ===== src/Chat/ReturnTests.antt =====
-- A session whose slot goes to another session and that comes back, over the sample world, and the
-- theorems at it.
use o_llm.Common.{
  ℕ, ◌≡◌, ◌≢◌, refl, ap, ◌∙◌, Bool, true, false, Option, none, some, List, [], ◌∷◌, get_or, is_ok,
  nat_eq, nat_eq_iff, sym, if◌then◌else◌, inl,
}
use o_llm.Common.Text.{Text, codes, text_eq_iff}
use o_llm.Common.Dict.{lookup, insert, erase, name_eq}
use o_llm.Json.Sample.{object, end, sample_json as J}
use o_llm.Key.{blob_name}
use o_llm.Slots.{
  fresh, entry_of, pick_free, pick_dirty, owned_slot, is_session, mark_dirty, mark_clean, update,
  claim,
}
use o_llm.Slots.Views.{hold_of, owner}
use o_llm.Slots.Distinct.{IsMap}
use o_llm.Publish.{
  Router, save_slot, restore_slot, publish, scratch_name, bump_mtime, rename_sidecar, sidecar_path,
}
use o_llm.Publish.Sample.{
  World, content, cell, encode, load, chat-content, chat-other, sample_disk as disk,
  sample_backend as be, sample_disk-IsDisk as disk_lawful, sample_backend-IsServer as server,
}
use o_llm.Quota.Scan.{scanned}
use o_llm.Quota.{plan_evictions, cache_usage_bytes, usage_from}
use o_llm.Chat.Sample.{sig, cache, lib, cfg, start, start-HasOwners}
use o_llm.Chat.State.{Holds}
use o_llm.Chat.Others.{admission-Holds}
use o_llm.Chat.Apart.{IsApart}
use o_llm.Chat.One.{IsSound}
use o_llm.Chat.Own.{HasTurned, run_turn-HasTurned}
use o_llm.Chat.Return.{IsWilling}
use o_llm.Chat.Between.{Turns, no_more, one_more, Turns-HasBack}
use o_llm.Chat.{
  admission, settle, steal, pick_slot, find_evictable, evict_to_disk, run_turn, relay, finish,
  enforce, forwarded,
}

a-ne-b : codes "b" ≢ codes "a"
a-ne-b e = let z : false ≡ true = (text_eq_iff (codes "b") (codes "a")).1 e in absurd cc

-- What the only slot says.
owner_of-start : (j : ℕ) (u : Text) → owner j start.slots ≡ some u → j ≡ 1
unfolding hold_of entry_of lookup
owner_of-start j u o = by_test (nat_eq 1 j) refl o
  where
    by_test :
        (b : Bool)
        → nat_eq 1 j ≡ b
        → (get_or
            (if b
              then some (record { session = some (codes "a"); dirty = true; busy = false })
              else none)
            fresh).session
          ≡ some u
        → j ≡ 1
    by_test true t e = sym ((nat_eq_iff 1 j).0 t)
    by_test false t e = absurd cc

start-Holds : Holds disk be content cell encode disk_lawful server sig (codes "a") 1 start
unfolding hold_of entry_of lookup
start-Holds = (λ j o. owner_of-start j (codes "a") o, inl (1, refl, refl))

start-IsMap : IsMap start.slots
unfolding lookup
start-IsMap = (refl, tt)

admission-Holds_example :
    Holds disk be content cell encode disk_lawful server sig
      (codes "a")
      1
      (admission disk be sig (codes "b") start).1
admission-Holds_example =
    admission-Holds disk be content cell encode disk_lawful server sig (codes "a") 1 (codes "b")
      a-ne-b start start-IsMap start-Holds

-- The router after the turn of "b".
abbrev after_b : Router World
after_b =
    (run_turn J lib disk cache be cfg 1 (codes "b") (object end)
      (admission disk be sig (codes "b") start)).1

spared : (w : World) → enforce cache 1 w ≡ w
unfolding enforce scanned plan_evictions cache_usage_bytes usage_from
spared w = refl

sample_backend-IsApart : (v : Text) → IsApart J cache be cfg content cell v
sample_backend-IsApart v = record {
  chat-content = λ body w. chat-content body w (blob_name v sig);
  chat-kv = chat-other;
  enforce-content = λ w. ap (content (blob_name v sig)) (spared w);
  enforce-kv = λ j w. ap (cell j) (spared w);
}

evicts : (admission disk be sig (codes "b") start).0 ≡ some 1
unfolding admission pick_slot settle steal find_evictable evict_to_disk save_slot restore_slot
    publish owned_slot is_session pick_free pick_dirty entry_of lookup insert erase mark_dirty
    blob_name scratch_name
evicts = refl

-- The turn of "b" has changed the slot.
changed : cell 1 after_b.world ≡ 11
unfolding admission pick_slot settle steal find_evictable evict_to_disk save_slot restore_slot
    publish owned_slot is_session pick_free pick_dirty entry_of lookup insert erase mark_dirty
    blob_name scratch_name run_turn relay finish bump_mtime rename_sidecar sidecar_path mark_clean
    update claim enforce scanned plan_evictions cache_usage_bytes usage_from forwarded
changed = refl

returns : (admission disk be sig (codes "a") after_b).0 ≡ some 1
unfolding admission pick_slot settle steal find_evictable evict_to_disk save_slot restore_slot
    publish owned_slot is_session pick_free pick_dirty entry_of lookup insert erase mark_dirty
    blob_name scratch_name run_turn relay finish bump_mtime rename_sidecar sidecar_path mark_clean
    update claim enforce scanned plan_evictions cache_usage_bytes usage_from forwarded
returns = refl

-- The server has every blob, and loads it.
willing : IsWilling disk be content cell encode disk_lawful server sig (codes "a") 1
willing id w saved = loads (lookup (blob_name (codes "a") sig) w.files) saved
  where
    loads : (o : Option (List ℕ)) → o ≡ some (1 ∷ []) → is_ok (load id o w).0 ≡ true
    loads none e = absurd cc
    loads (some []) e = absurd cc
    loads (some (k ∷ ks)) e = refl

turn_of_b : Turns J lib disk cache be cfg (codes "a") start after_b
turn_of_b = one_more (codes "b") 1 (object end) 1 start after_b a-ne-b evicts (no_more after_b)

Turns-HasBack_example : cell 1 (admission disk be sig (codes "a") after_b).1.world ≡ 1
Turns-HasBack_example =
    Turns-HasBack J lib disk cache be cfg content cell encode disk_lawful server (codes "a") 1 start
      after_b turn_of_b start-Holds start-IsMap willing (sample_backend-IsApart (codes "a")) 1
      returns

start-IsSound : IsSound start.slots
start-IsSound =
    (start-HasOwners, start-IsMap, λ u i j p q. owner_of-start i u p ∙ sym (owner_of-start j u q))

run_turn-HasTurned_example :
    HasTurned J lib disk cache be cfg content cell encode disk_lawful server
      (codes "b")
      (object end)
      1
      (admission disk be sig (codes "b") start).1
      after_b
run_turn-HasTurned_example =
    run_turn-HasTurned J lib disk cache be cfg content cell encode disk_lawful server (codes "b") 1
      (object end) 1 start start-IsSound evicts (sample_backend-IsApart (codes "b"))
