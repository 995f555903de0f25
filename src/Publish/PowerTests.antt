-- ===== src/Publish/PowerTests.antt =====
-- The sample world with a volatile cache before the disk, and the theorem on power failures at it.
use o_llm.Common.{
  ℕ, ◌≡◌, ◌≢◌, refl, sym, ap, ◌∙◌, ◌⊎◌, inl, inr, Bool, true, false, Option, some, List, [], ◌∷◌,
  ok, is_ok, Bool-cases, if◌then◌else◌, All,
}
use o_llm.Common.Text.{Text, codes, text_eq, text_eq_iff}
use o_llm.Common.Dict.{erase, lookup, insert}
use o_llm.Json.Sample.{Value}
use o_llm.Key.{blob_name}
use o_llm.Backend.{Backend}
use o_llm.Publish.{
  Disk, IsDisk, Router, save_slot, scratch_name, publish, rename_sidecar, bump_mtime, sidecar_path,
}
use o_llm.Publish.Crash.{last_or, save_points}
use o_llm.Publish.Volatile.{IsDurable}
use o_llm.Publish.Power.{save_points-IsSpared}
use o_llm.Publish.Durable.{SyncsDir, save_slot-survives}
use o_llm.Publish.Sample.{
  World, content, sample_disk, sample_backend, sample_disk-IsDisk, ne-text_eq,
}

-- The files, and which of them are synced.
abbrev Cached : Type 0
Cached = World × (Text → Bool)

abbrev mark : Bool → Text → (Text → Bool) → Text → Bool
mark b n synced m = if text_eq n m then b else synced m

-- The new name has the file that was renamed.
abbrev renamed : Bool → Text → Text → (Text → Bool) → Text → Bool
renamed true a b synced = mark (synced a) b synced
renamed false a b synced = synced

abbrev disk : Disk Cached
disk = record {
  exists = λ n w. sample_disk.exists n w.0;
  open_file = λ n w. ((sample_disk.open_file n w.0).0, ((sample_disk.open_file n w.0).1, w.1));
  sync_all = λ n w. (ok tt, (w.0, mark true n w.1));
  rename = λ a b w. (
    (sample_disk.rename a b w.0).0,
    ((sample_disk.rename a b w.0).1, renamed (is_ok (sample_disk.rename a b w.0).0) a b w.1),
  );
  sync_dir = λ w. w;
  open_write = λ n w. ((sample_disk.open_write n w.0).0, ((sample_disk.open_write n w.0).1, w.1));
  set_times = λ n w. w;
}

-- What the server writes is not synced.
abbrev be : Backend Cached Value
be = record {
  slots = λ w. ((sample_backend.slots w.0).0, w);
  prefill_only = λ id v w. ((sample_backend.prefill_only id v w.0).0, w);
  save_slot = λ id n w. (
    (sample_backend.save_slot id n w.0).0,
    ((sample_backend.save_slot id n w.0).1, mark false n w.1),
  );
  restore_slot = λ id n w.
      ((sample_backend.restore_slot id n w.0).0, ((sample_backend.restore_slot id n w.0).1, w.1));
  chat = λ v w. ((sample_backend.chat v w.0).0, ((sample_backend.chat v w.0).1, w.1));
}

abbrev held : Text → Cached → Option (List ℕ)
held n w = content n w.0

-- A file that is not synced may become anything.
abbrev MayLeave : Cached → Text → Option (List ℕ) → Type 0
MayLeave w n c = (c ≡ held n w) ⊎ (w.1 n ≡ false)

disk-IsDisk : IsDisk disk held
disk-IsDisk =
    let L = sample_disk-IsDisk in
    record {
      exists-content = λ n w e. L.exists-content n w.0 e;
      open_file-content = λ n m w. refl;
      sync_all-content = λ n m w. refl;
      sync_dir-content = λ m w. refl;
      open_write-content = λ n m w. refl;
      set_times-content = λ n m w. refl;
      rename-target = λ a b w e. L.rename-target a b w.0 e;
      rename-other = λ a b m w p q. L.rename-other a b m w.0 p q;
      rename-failed = λ a b m w e. L.rename-failed a b m w.0 e;
    }

mark-same : (b : Bool) (n : Text) (s : Text → Bool) → mark b n s n ≡ b
mark-same b n s = rw ((text_eq_iff n n).1 refl) refl

mark-other : (b : Bool) (n m : Text) (s : Text → Bool) → m ≢ n → mark b n s m ≡ s m
mark-other b n m s d = rw (ne-text_eq m n d) refl

synced :
    (n : Text) (w : Cached) (c : Option (List ℕ))
    → MayLeave (disk.sync_all n w).1 n c
    → c ≡ held n w
synced n w c (inl e) = e
synced n w c (inr e) = absurd (let z : true ≡ false = sym (mark-same true n w.1) ∙ e in cc)

rename-bytes :
    (a b : Text) (w : Cached) (c : Option (List ℕ))
    → is_ok (sample_disk.rename a b w.0).0 ≡ true
    → MayLeave (disk.rename a b w).1 b c
    → MayLeave w a c
rename-bytes a b w c o (inl e) = inl (e ∙ sample_disk-IsDisk.rename-target a b w.0 o)
rename-bytes a b w c o (inr e) =
    inr (sym (mark-same (w.1 a) b w.1) ∙ (sym (ap (λ x. renamed x a b w.1 b) o) ∙ e))

rename-failed :
    (a b m : Text) (w : Cached) (c : Option (List ℕ))
    → is_ok (sample_disk.rename a b w.0).0 ≡ false
    → MayLeave (disk.rename a b w).1 m c
    → MayLeave w m c
rename-failed a b m w c o (inl e) = inl (e ∙ sample_disk-IsDisk.rename-failed a b m w.0 o)
rename-failed a b m w c o (inr e) = inr (sym (ap (λ x. renamed x a b w.1 m) o) ∙ e)

rename-left :
    (a b : Text) (w : Cached) (c : Option (List ℕ))
    → MayLeave (disk.rename a b w).1 b c
    → MayLeave w b c ⊎ MayLeave w a c
rename-left a b w c l = elim (Bool-cases (is_ok (sample_disk.rename a b w.0).0)) [
  | inl o ↦ inr (rename-bytes a b w c o l)
  | inr o ↦ inl (rename-failed a b b w c o l)
]

renamed-other : (x : Bool) (a b m : Text) (s : Text → Bool) → m ≢ b → renamed x a b s m ≡ s m
renamed-other true a b m s d = mark-other (s a) b m s d
renamed-other false a b m s d = refl

rename-other :
    (a b m : Text) (w : Cached) (c : Option (List ℕ))
    → m ≢ a
    → m ≢ b
    → MayLeave (disk.rename a b w).1 m c
    → MayLeave w m c
rename-other a b m w c p q (inl e) = inl (e ∙ sample_disk-IsDisk.rename-other a b m w.0 p q)
rename-other a b m w c p q (inr e) =
    inr (sym (renamed-other (is_ok (sample_disk.rename a b w.0).0) a b m w.1 q) ∙ e)

sync_all-left :
    (n m : Text) (w : Cached) (c : Option (List ℕ))
    → MayLeave (disk.sync_all n w).1 m c
    → MayLeave w m c
sync_all-left n m w c (inl e) = inl e
sync_all-left n m w c (inr e) = inr (by_test (text_eq n m) e)
  where
    by_test : (b : Bool) → (if b then true else w.1 m) ≡ false → w.1 m ≡ false
    by_test true e = absurd cc
    by_test false e = e

disk-IsDurable : IsDurable disk held MayLeave MayLeave
disk-IsDurable = record {
  sync_all-bytes = λ n w c o l. synced n w c l;
  rename-left = rename-left;
  rename-failed = rename-failed;
  rename-other = rename-other;
  sync_all-left = sync_all-left;
  open_file-left = λ n m w c l. l;
  open_write-left = λ n m w c l. l;
  set_times-left = λ n m w c l. l;
  sync_dir-left = λ m w c l. l;
}

disk-SyncsDir : SyncsDir disk MayLeave MayLeave
disk-SyncsDir = record {
  sync_dir-bytes = λ n w c l. l;
  rename-bytes = rename-bytes;
  rename-bytes_other = rename-other;
}

abbrev start : Router Cached
start = record {
  slots = [];
  world = (record { files = []; states = []; cells = λ i. i }, λ n. true);
}

abbrev saved : Cached
saved = (be.save_slot 1 (scratch_name (blob_name (codes "a") (codes "s"))) start.world).1

abbrev name : Text
name = blob_name (codes "a") (codes "s")

untouched : (c : Option (List ℕ)) → MayLeave saved name c → MayLeave start.world name c
unfolding blob_name scratch_name lookup insert
untouched c (inl e) = inl e
untouched c (inr e) = inr e

save_points-IsSpared_example :
    (last_or start.world (save_points disk be (codes "s") 1 (codes "a") start)
      ≡ (save_slot disk be (codes "s") 1 (codes "a") start).1.world)
    × All
        (λ w.
          (held name w ≡ held name start.world) ⊎ (held name w ≡ held (scratch_name name) saved))
        (save_points disk be (codes "s") 1 (codes "a") start)
    × All
        (λ w.
          (c : Option (List ℕ))
          → MayLeave w name c
          → MayLeave start.world name c ⊎ (c ≡ held (scratch_name name) saved))
        (save_points disk be (codes "s") 1 (codes "a") start)
unfolding scratch_name blob_name lookup insert
save_points-IsSpared_example =
    save_points-IsSpared disk held MayLeave MayLeave disk-IsDisk disk-IsDurable be (codes "s") 1
      (codes "a") start saved refl refl untouched

save_slot-survives_example : some (1 ∷ []) ≡ held (scratch_name name) saved
unfolding save_slot publish lookup insert erase scratch_name blob_name rename_sidecar bump_mtime
    sidecar_path
save_slot-survives_example =
    save_slot-survives disk held MayLeave MayLeave disk-IsDisk disk-IsDurable disk-SyncsDir be
      (codes "s") 1 (codes "a") start refl (some (1 ∷ [])) (inl refl)
