-- ===== src/Chat/SparedTests.antt =====
-- A turn's end in a full cache directory, and the theorem at it.
use o_llm.Common.{
  ◌≡◌, ◌≢◌, refl, sym, subst, ◌∙◌, ◌⊎◌, inl, inr, true, false, Option, none, some, List, [], ◌∷◌,
  arith,
}
use o_llm.Common.Text.{Text, codes, text_eq_iff}
use o_llm.Common.Dict.{lookup, insert, erase, lookup-erase, name_eq}
use o_llm.Json.Sample.{sample_json as J}
use o_llm.Key.{blob_name}
use o_llm.Quota.{CacheEntry}
use o_llm.Quota.Scan.{DirEntry, scanned, entries_of}
use o_llm.Quota.Refinement.{IsDirectory}
use o_llm.Publish.{Router, save_slot, publish, scratch_name}
use o_llm.Publish.Sample.{
  World, content, cell, encode, sample_disk as disk, sample_backend as be, ne-text_eq,
  sample_disk-IsDisk as disk_lawful, sample_backend-IsServer as server,
}
use o_llm.Chat.Sample.{sig, lib, cfg, start}
use o_llm.Chat.Spared.{IsCache, IsFresh, end_save, finish-saved}
use o_llm.Chat.{Cache, finish}

abbrev blob : Text
blob = blob_name (codes "a") sig

-- A blob of 2 MB that is long out of use, the one just saved, and what the scan passes over.
abbrev listing : List (Option DirEntry)
listing =
    some (record {
      is_file = true;
      metadata = some (record { len = 2000000; modified = some 0 });
      name = some (codes "z.bin");
    })
    ∷ none
    ∷ some (record { is_file = false; metadata = none; name = some (codes "sub") })
    ∷ some (record {
      is_file = true;
      metadata = some (record { len = 100; modified = some 3590 });
      name = some blob;
    })
    ∷ some (record { is_file = true; metadata = none; name = some (codes "gone.bin") })
    ∷ []

abbrev cache : Cache World
cache = record {
  read_dir = λ w. some listing;
  now = λ w. 3600;
  remove_file = λ n w. record w { files = erase n w.files };
}

removes : IsCache cache content
removes n m w d = lookup-erase n m w.files ∙ rw (ne-text_eq m n d) refl

abbrev listed : List CacheEntry
listed =
    record { name = codes "z.bin"; len = 2000000; mtime_unix = 0 }
    ∷ record { name = blob; len = 100; mtime_unix = 3590 }
    ∷ []

scan_of : (w : World) → scanned (cache.read_dir w) ≡ listed
unfolding scanned entries_of
scan_of w = refl

z-ne-blob : codes "z.bin" ≢ blob
unfolding blob_name
z-ne-blob e = let z : false ≡ true = (text_eq_iff (codes "z.bin") blob).1 e in absurd cc

listed-IsDirectory : IsDirectory listed
listed-IsDirectory = record { distinct = (distinct, (λ m. m, tt)); fits = omega arith }
  where
    distinct : ¬ ((codes "z.bin" ≡ blob) ⊎ ⊥)
    distinct (inl e) = z-ne-blob e
    distinct (inr m) = m

fresh : (w : World) → IsFresh cache blob w
unfolding scanned entries_of
fresh w = (record { name = blob; len = 100; mtime_unix = 3590 }, inr (inl refl), refl, omega arith)

abbrev after_save : Router World
after_save = (end_save disk be sig 1 (codes "a") start).1

saved : (end_save disk be sig 1 (codes "a") start).0 ≡ true
unfolding save_slot publish lookup insert scratch_name blob_name
saved = refl

finish-saved_example :
    content blob (finish J lib disk cache be cfg (some 1) (codes "a") start).world ≡ some (1 ∷ [])
finish-saved_example =
    finish-saved J lib disk cache be cfg content cell encode disk_lawful server removes 1
      (codes "a") start saved
      (subst IsDirectory (sym (scan_of after_save.world)) listed-IsDirectory)
      (fresh after_save.world)
