-- ===== src/Serve/Health.antt =====
-- What `health` of src/lib.rs shows of the cache, beside what the quota counts.
use o_llm.Common.{
  ◌+◌, ◌%◌, ℕ, ◌-◌, ◌*◌, ◌/◌, ◌^◌, ◌≤◌, ◌<◌, ◌≡◌, ◌≢◌, refl, ap, subst, ◌∙◌, ◌⊎◌, inl, inr, arith,
  Bool, true, false, Option, none, some, List, [], ◌∷◌, ◌++◌, map, Option-cases, In, if◌then◌else◌,
}
use o_llm.Common.Text.{Text, codes}
use o_llm.Quota.{
  CacheEntry, add64, usage_from, cache_usage_bytes, enforce_limit, is_junk, is_blob, pair_of,
  find_entry, dot_ckpt,
}
use o_llm.Quota.Names.{find_entry-some}
use o_llm.Quota.Refinement.{IsDirectory, cache_usage_bytes_lem}
use o_llm.Quota.Usage.{enforce_limit_lem}
use o_llm.Json.{Json, IsLawful}
use o_llm.Backend.Llama.{u64_of}
use o_llm.Chat.{Libraries}
use o_llm.Quota.Scan.{DirEntry, Metadata, push_file, entries_of}
use o_llm.Serve.{
  push_len, entry_lens, sum_from, megabytes, Os, Net, App, Reply, json, stream, health,
}

-- The number in the field `cache_mb` of a reply.
abbrev pub health_mb : {V : Type 0} → Json V → Reply V → Option ℕ
health_mb J (json code v) = u64_of J (J.get v (codes "cache_mb"))
health_mb J (stream code chunks) = none

abbrev pub lens_of : List CacheEntry → List ℕ
lens_of entries = map (λ (e : CacheEntry). e.len) entries

sum_from-usage_from :
    (acc : ℕ) (entries : List CacheEntry) → sum_from acc (lens_of entries) ≡ usage_from acc entries
unfolding sum_from usage_from
sum_from-usage_from acc [] = refl
sum_from-usage_from acc (e ∷ entries) = sum_from-usage_from (add64 acc e.len) entries

-- The directory holds regular files only, with names that are valid UTF-8.
abbrev pub IsPlain : List (Option DirEntry) → Type 0
IsPlain [] = Unit
IsPlain (none ∷ rd) = IsPlain rd
IsPlain (some e ∷ rd) = (e.is_file ≡ true) × (e.name ≢ none) × IsPlain rd

push_len-push_file :
    (file : Bool) (name : Option Text) (md : Option Metadata) (lens : List ℕ)
    (entries : List CacheEntry)
    → file ≡ true
    → name ≢ none
    → lens ≡ lens_of entries
    → push_len md lens ≡ lens_of (if file then push_file name md entries else entries)
push_len-push_file false name md lens entries f n h = absurd cc
push_len-push_file true none md lens entries f n h = absurd (n refl)
push_len-push_file true (some t) none lens entries f n h = h
push_len-push_file true (some t) (some md) lens entries f n h = ap (λ xs. md.len ∷ xs) h

-- Of such a directory `health` adds up the lengths that the scan finds.
entry_lens-entries_of :
    (rd : List (Option DirEntry)) → IsPlain rd → entry_lens rd ≡ lens_of (entries_of rd)
unfolding entry_lens entries_of
entry_lens-entries_of [] plain = refl
entry_lens-entries_of (none ∷ rd) plain = entry_lens-entries_of rd plain
entry_lens-entries_of (some e ∷ rd) (file, named, plain) =
    push_len-push_file e.is_file e.name e.metadata (entry_lens rd) (entries_of rd) file named
      (entry_lens-entries_of rd plain)

-- `health` counts what the planner counts.
pub megabytes-cache_usage_bytes :
    (rd : List (Option DirEntry))
    → IsPlain rd
    → megabytes (some rd) ≡ cache_usage_bytes (entries_of rd) / 1024 / 1024
unfolding cache_usage_bytes
megabytes-cache_usage_bytes rd plain =
    ap (λ n. n / 1024 / 1024)
      (ap (sum_from 0) (entry_lens-entries_of rd plain) ∙ sum_from-usage_from 0 (entries_of rd))

abbrev pub IsStale : ℕ → List CacheEntry → Type 0
IsStale now entries = (e : CacheEntry) → In e entries → 60 ≤ now - e.mtime_unix

pair-stale :
    (now : ℕ) (entries : List CacheEntry) (b : CacheEntry)
    → IsStale now entries
    → In b entries
    → 60 ≤ now - (pair_of entries b).mtime
unfolding pair_of
pair-stale now entries b s m = elim (Option-cases (find_entry entries (b.name ++ dot_ckpt))) [
  | inl e ↦ rw e (omega (arith, s b m))
  | inr (c, e) ↦
      rw e (omega (arith, s b m, s c (find_entry-some entries (b.name ++ dot_ckpt) c e).0))
]

sum_from-bound : (acc : ℕ) (lens : List ℕ) → acc < 2 ^ 64 → sum_from acc lens < 2 ^ 64
unfolding sum_from add64
sum_from-bound acc [] h = h
sum_from-bound acc (n ∷ lens) h = sum_from-bound ((acc + n) % 2 ^ 64) lens (omega arith)

megabytes-bound : (o : Option (List (Option DirEntry))) → megabytes o < 2 ^ 64
megabytes-bound none = omega arith
megabytes-bound (some rd) = omega (arith, sum_from-bound 0 (entry_lens rd) (omega arith))

module _ {W V B : Type 0} (J : Json V) (lib : Libraries V) (os : Os W) (net : Net W V B)
    (app : App) where
  is_object_after :
      IsLawful J → {v x : V} {k : Text} → J.is_object v ≡ true → J.is_object (J.set v k x) ≡ true
  is_object_after laws {v} {x} {k} h = laws.is_object-set v x k ∙ h

  health_mb-megabytes :
      (w : W)
      → IsLawful J
      → health_mb J (health J lib os net app w)
        ≡ some (megabytes ((os.cache app.cfg.cache_dir).read_dir w))
  unfolding health
  health_mb-megabytes w laws =
      let four = is_object_after laws (
        is_object_after laws
          (is_object_after laws (is_object_after laws laws.is_object-empty_object))) in
      ap (u64_of J) (laws.get-set _ _ _ _ (is_object_after laws four) ∙ laws.get-set _ _ _ _ four)
      ∙ laws.as_u64-number _ (megabytes-bound ((os.cache app.cfg.cache_dir).read_dir w))

  -- After `enforce_limit` has run with every removal succeeding, in a directory whose files are
  -- all older than the grace and with a limit that fits 64 bits, let the directory hold the files
  -- that are left and nothing else, all of them regular and with names in UTF-8. Then `health` shows
  -- in `cache_mb` at most the limit, or all that is left are sidecars of files that were there.
  pub health-enforce_limit :
      (removes : Text → Bool) (now : ℕ) (entries after : List CacheEntry)
      (rd : List (Option DirEntry)) (w : W)
      → IsLawful J
      → IsDirectory entries
      → IsStale now entries
      → ((n : Text) → removes n ≡ true)
      → app.cfg.cache_limit_mb * 1024 * 1024 < 2 ^ 64
      → enforce_limit removes app.cfg.cache_limit_mb now entries ≡ some after
      → (os.cache app.cfg.cache_dir).read_dir w ≡ some rd
      → IsPlain rd
      → entries_of rd ≡ after
      → (n : ℕ) × (health_mb J (health J lib os net app w) ≡ some n)
        × ((n ≤ app.cfg.cache_limit_mb)
            ⊎ ((e : CacheEntry) → In e after → (is_junk entries e ≡ false) × (is_blob e ≡ false)))
  health-enforce_limit removes now entries after rd w laws dir stale all small done lists plain
        scan =
      let (left, e, sub, r) =
        enforce_limit_lem removes app.cfg.cache_limit_mb now entries dir all small in
      let same : left ≡ after = ground (arith, e, done) in
      (
        cache_usage_bytes after / 1024 / 1024,
        health_mb-megabytes w laws
            ∙ ap (λ l. some (megabytes l)) lists
            ∙ ap (λ n. some n) (megabytes-cache_usage_bytes rd plain)
            ∙ ap (λ l. some (cache_usage_bytes l / 1024 / 1024)) scan,
        subst (λ l. In_limit l) same
            (elim r [
              | inl fits ↦
                  inl (omega (arith, cache_usage_bytes_lem left (omega (arith, fits, small)), fits))
              | inr (junk, blobs) ↦ inr (λ x m. (
                ground (arith, junk x m, stale x (sub x m)),
                ground (arith, blobs x m, pair-stale now entries x stale (sub x m)),
              ))
            ]),
      )
    where
      In_limit : List CacheEntry → Type 0
      In_limit l =
          (cache_usage_bytes l / 1024 / 1024 ≤ app.cfg.cache_limit_mb)
          ⊎ ((e : CacheEntry) → In e l → (is_junk entries e ≡ false) × (is_blob e ≡ false))
