-- ===== src/Chat/Spared.antt =====
-- The quota at the end of a turn (`enforce_limit` and `chat_completions` of src/lib.rs) and the blob
-- that the turn has just saved.
use o_llm.Common.{
  ℕ, ◌<◌, ◌≡◌, ◌≢◌, refl, sym, subst, ◌∙◌, inl, inr, Bool, true, Option, some, List, [], ◌∷◌, arith,
  Option-cases, In, ◌*◌, ◌%◌, ◌^◌, ◌-◌,
}
use o_llm.Common.Text.{Text}
use o_llm.Json.{Json}
use o_llm.Key.{blob_name}
use o_llm.Backend.{Backend}
use o_llm.Slots.{claim}
use o_llm.Quota.{CacheEntry, plan_evictions}
use o_llm.Quota.Scan.{scanned}
use o_llm.Quota.Refinement.{IsDirectory}
use o_llm.Quota.Plan.{grace_honored}
use o_llm.Publish.{Disk, IsDisk, Router, save_slot}
use o_llm.Publish.Server.{IsServer, save_slot-saved}
use o_llm.Chat.{Cache, Config, Libraries, finish, enforce, remove_all}

-- Removing a file leaves the others as they are.
abbrev pub IsCache : {W : Type 0} → Cache W → (Text → W → Option (List ℕ)) → Type 0
IsCache {W} cache content =
    (n m : Text) (w : W) → m ≢ n → content m (cache.remove_file n w) ≡ content m w

-- The file is listed with a modification time less than a minute ago.
abbrev pub IsFresh : {W : Type 0} → Cache W → Text → W → Type 0
IsFresh cache m w =
    (e : CacheEntry) × In e (scanned (cache.read_dir w))
    × (e.name ≡ m)
    × (cache.now w - e.mtime_unix < 60)

module _ {W : Type 0} (cache : Cache W) (content : Text → W → Option (List ℕ))
    (removes : IsCache cache content) (limit_mb : ℕ) where
  remove_all-other :
      (m : Text) (names : List Text) (w : W)
      → ¬ In m names
      → content m (remove_all cache limit_mb names w) ≡ content m w
  unfolding remove_all
  remove_all-other m [] w out = refl
  remove_all-other m (n ∷ names) w out =
      remove_all-other m names (cache.remove_file n w) (λ i. out (inr i))
      ∙ removes n m w (λ e. out (inl e))

  -- The quota does not touch a fresh file.
  pub enforce-fresh :
      (m : Text) (w : W)
      → IsDirectory (scanned (cache.read_dir w))
      → IsFresh cache m w
      → content m (enforce cache limit_mb w) ≡ content m w
  unfolding enforce
  enforce-fresh m w dir (e, listed, named, young) = elim (Option-cases planned) [
    | inl q ↦ rw (q, enforce) refl
    | inr (names, q) ↦
        rw (q, enforce)
          (remove_all-other m names w (λ i. absurd (
            omega (
              arith,
              young,
              grace_honored (scanned (cache.read_dir w)) (limit_mb * 1024 * 1024 % 2 ^ 64)
                  (cache.now w) 60 names dir q e listed (subst (λ n. In n names) (sym named) i),
            ))))
  ]
    where
      planned : Option (List Text)
      planned =
          plan_evictions (scanned (cache.read_dir w)) (limit_mb * 1024 * 1024 % 2 ^ 64)
            (cache.now w) 60

module _ {W V : Type 0} (disk : Disk W) (be : Backend W V) (sig : Text) where
  -- The save at the end of a turn, before the quota.
  abbrev pub end_save : ℕ → Text → Router W → Bool × Router W
  end_save id session r =
      save_slot disk be sig id session (record r { slots = claim id session r.slots })

module _ {W V K : Type 0} (J : Json V) (lib : Libraries V) (disk : Disk W) (cache : Cache W)
    (be : Backend W V) (cfg : Config) (content : Text → W → Option (List ℕ)) (kv : ℕ → W → K)
    (encode : K → List ℕ) (lawful : IsDisk disk content)
    (server : IsServer disk be content kv encode) (removes : IsCache cache content) where
  -- A turn's own quota spares its blob. If the save at the end of a turn succeeds, and the directory
  -- then lists no name twice, files of less than 2^64 bytes in all, and the session's blob as
  -- modified less than a minute ago, then after the end of the turn, quota included, the blob holds
  -- the state that the slot had.
  pub finish-saved :
      (id : ℕ) (session : Text) (r : Router W)
      → (end_save disk be cfg.backend_sig id session r).0 ≡ true
      → IsDirectory
          (scanned (cache.read_dir (end_save disk be cfg.backend_sig id session r).1.world))
      → IsFresh cache
          (blob_name session cfg.backend_sig)
          (end_save disk be cfg.backend_sig id session r).1.world
      → content
          (blob_name session cfg.backend_sig)
          (finish J lib disk cache be cfg (some id) session r).world
        ≡ some (encode (kv id r.world))
  unfolding finish
  finish-saved id session r saved dir fresh =
      enforce-fresh cache content removes cfg.cache_limit_mb (blob_name session cfg.backend_sig)
        (end_save disk be cfg.backend_sig id session r).1.world dir fresh
      ∙ save_slot-saved disk be content kv encode lawful server cfg.backend_sig id session
          (record r { slots = claim id session r.slots }) saved
