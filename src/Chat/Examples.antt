-- ===== src/Chat/Examples.antt =====
-- A request through the handler over the sample world, and the theorems at it.

use o_llm.Common.{ℕ, ◌≡◌, refl, true, false, Option, some, List, [], ◌∷◌, Result, ok, err, inl}
use o_llm.Common.Text.{Text, codes}
use o_llm.Common.Dict.{lookup, insert, erase}
use o_llm.Json.Sample.{object, end, sample_json as J}
use o_llm.Key.{blob_name}
use o_llm.Slots.{entry_of, pick_free, pick_dirty, owned_slot, is_session, mark_dirty}
use o_llm.Slots.Views.{hold_of}
use o_llm.Publish.{
  Router, save_slot, restore_slot, publish, scratch_name, sidecar_path, rename_sidecar, bump_mtime,
  after_open, after_sync, after_rename,
}
use o_llm.Publish.Sidecar.{publish-stale_sidecar}
use o_llm.Publish.Fs.{success, fs_publish, fs_publish-publish}
use o_llm.Chat.Sample.{sig, cache, lib, cfg, start, start-HasOwners}
use o_llm.Publish.Sample.{
  World, content, sample_disk as disk, sample_backend as be, sample_disk-IsDisk as disk_lawful,
}
use o_llm.Publish.Atomic.{SaveOutcome, save_slot-SaveOutcome}
use o_llm.Chat.{
  Pumped, Response, pump, admission, settle, steal, pick_slot, find_evictable, evict_to_disk,
  after_pump, run_turn,
}
use o_llm.Chat.Steer.{Steered, admission-Steered}
use o_llm.Chat.Kept.{Kept, run_turn-Kept}
use o_llm.Chat.Turn.{Stopped, pump-Stopped, TurnEnd, after_pump-TurnEnd}

-- The victim's state is published before the new session takes the slot.
evicts : (admission disk be sig (codes "b") start).0 ≡ some 1
unfolding admission pick_slot settle steal find_evictable evict_to_disk save_slot restore_slot
    publish owned_slot is_session pick_free pick_dirty entry_of lookup insert mark_dirty blob_name
    scratch_name
evicts = refl

published :
    content (blob_name (codes "a") sig) (admission disk be sig (codes "b") start).1.world
    ≡ some (1 ∷ [])
unfolding admission pick_slot settle steal find_evictable evict_to_disk save_slot restore_slot
    publish owned_slot is_session pick_free pick_dirty entry_of lookup insert erase mark_dirty
    blob_name scratch_name rename_sidecar sidecar_path bump_mtime
published = refl

admission-Steered_example :
    Steered disk be sig (codes "b") start (admission disk be sig (codes "b") start)
admission-Steered_example = admission-Steered disk be sig (codes "b") start start-HasOwners

save_slot-SaveOutcome_example :
    SaveOutcome disk content disk_lawful be sig 1
      (codes "a")
      start
      (save_slot disk be sig 1 (codes "a") start)
save_slot-SaveOutcome_example =
    save_slot-SaveOutcome disk content disk_lawful be sig 1 (codes "a") start

-- A new state of "x" in its scratch file, which has no sidecar; the blob and its sidecar are old.
abbrev before : World
before = record start.world {
  files = (codes "x.save", 3 ∷ []) ∷ (codes "x", 1 ∷ []) ∷ (codes "x.ckpt", 2 ∷ []) ∷ [];
}

publish-stale_sidecar_example :
    (content (codes "x") (publish disk (scratch_name (codes "x")) (codes "x") before).1
      ≡ content (scratch_name (codes "x")) before)
    × (content
          (sidecar_path (codes "x"))
          (publish disk (scratch_name (codes "x")) (codes "x") before).1
        ≡ content (sidecar_path (codes "x")) before)
unfolding publish after_open after_sync after_rename rename_sidecar sidecar_path scratch_name lookup
    insert erase
publish-stale_sidecar_example =
    publish-stale_sidecar disk content disk_lawful (codes "x") before (inl refl) refl

fs_publish-publish_example :
    success disk (fs_publish disk (codes "x.save") (codes "x") start.world)
    ≡ publish disk (codes "x.save") (codes "x") start.world
fs_publish-publish_example = fs_publish-publish disk (codes "x.save") (codes "x") start.world

abbrev stream : List (Result (List ℕ) Text)
stream = ok (codes "x") ∷ ok (codes "y") ∷ err (codes "reset") ∷ []

pump-Stopped_example : Stopped 1 stream (pump 1 stream)
pump-Stopped_example = pump-Stopped 1 stream

abbrev left : Pumped
left = record { sent = codes "x" ∷ []; failed = false; disconnected = true }

after_pump-TurnEnd_example :
    TurnEnd J lib disk cache be cfg 1
      (codes "a")
      left
      start
      (after_pump J lib disk cache be cfg (some 1) (codes "a") left start)
unfolding hold_of entry_of lookup
after_pump-TurnEnd_example =
    after_pump-TurnEnd J lib disk cache be cfg 1 (codes "a") left start refl

abbrev headers : Text → Option Text
headers n = some (codes "b")

-- The router after a request of the session "hdr-b".
abbrev result : Response × Router World
result =
    run_turn J lib disk cache be cfg 1 (codes "hdr-b") (object end)
      (admission disk be sig (codes "hdr-b") start)

run_turn-Kept_example :
    Kept J lib disk cache be cfg 1
      (codes "b")
      (codes "a")
      start
      (run_turn J lib disk cache be cfg 1
        (codes "b")
        (object end)
        (admission disk be sig (codes "b") start)).1
unfolding hold_of entry_of lookup
run_turn-Kept_example =
    run_turn-Kept J lib disk cache be cfg 1 1 (codes "b") (codes "a") (object end) start
      start-HasOwners refl
