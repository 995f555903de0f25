-- ===== src/Quota/Refinement.antt =====
-- `plan_evictions` beside `evict`, in a directory whose sizes fit 64 bits.
use mathlib.Core.List.{map-append, map-map}
use mathlib.Core.Path.{fun_ext}
use o_llm.Common.{
  ℕ, ◌+◌, ◌-◌, ◌^◌, ◌≤◌, ◌<◌, ◌≡◌, refl, sym, ap, ◌∙◌, inl, inr, some, List, [], ◌∷◌, ◌++◌, map,
  arith, In, In-append_right, leb, ltb, Bool-cases, sum_by-append,
}
use o_llm.Common.Sorting.{sort_by_key, sort_by_key-map}
use o_llm.Quota.{
  CacheEntry, Progress, Pair, add64, sub64, usage_from, cache_usage_bytes, unit_bytes_from, pair_of,
  pairs_of, junk_of, sweep_junk, sweep_pairs, plan_evictions,
}
use o_llm.Quota.Names.{names_of, HasDistinctNames, find_entry_of_In}
use o_llm.Quota.Batches.{
  Batch, bytes_of, files_of, junk_batch, blob_batch, blobs_of, blob_batches, batches, In-batches,
  IsBatch-files, bytes_of_files-le,
}
use o_llm.Quota.Evict.{evict, evict_stop, evict-append}

-- A directory: distinct names, and sizes whose sum fits 64 bits.
pub record IsDirectory (entries : List CacheEntry) : Type 0 where
  pub distinct : HasDistinctNames entries
  pub fits : bytes_of entries < 2 ^ 64

add64_lem : (a b : ℕ) → a + b < 2 ^ 64 → add64 a b ≡ a + b
unfolding add64
add64_lem a b h = omega arith

sub64_lem : (a b : ℕ) → a < 2 ^ 64 → b ≤ a → sub64 a b ≡ a - b
unfolding sub64
sub64_lem a b h k = omega arith

usage_from_lem :
    (acc : ℕ) (entries : List CacheEntry)
    → acc + bytes_of entries < 2 ^ 64
    → usage_from acc entries ≡ acc + bytes_of entries
unfolding usage_from
usage_from_lem acc [] h = omega arith
usage_from_lem acc (e ∷ entries) h =
    rw (add64_lem acc e.len (omega arith))
      (omega (arith, usage_from_lem (acc + e.len) entries (omega arith)))

-- The usage is the true sum of all sizes, of sidecars and leftovers too.
pub cache_usage_bytes_lem :
    (entries : List CacheEntry)
    → bytes_of entries < 2 ^ 64
    → cache_usage_bytes entries ≡ bytes_of entries
unfolding cache_usage_bytes
cache_usage_bytes_lem entries h = omega (arith, usage_from_lem 0 entries (omega arith))

-- The state of the loops after the files of `done`.
abbrev progress : List CacheEntry → Progress
progress done = record { names = names_of done; freed = bytes_of done }

abbrev as_pair : Batch → Pair
as_pair b = record { mtime = b.mtime; unit = names_of b.files }

progress-append :
    (done files : List CacheEntry) (n : ℕ)
    → n ≡ bytes_of files
    → bytes_of done + n < 2 ^ 64
    → record { names = names_of done ++ names_of files; freed = add64 (bytes_of done) n }
      ≡ progress (done ++ files)
progress-append done files n e h = rw (
  add64_lem (bytes_of done) n h,
  e,
  sum_by-append (λ (e : CacheEntry). e.len) done files,
  map-append (λ (e : CacheEntry). e.name) done files,
)

module _ (entries : List CacheEntry) (limit now grace total : ℕ) (fits : total < 2 ^ 64) where
  sweep_junk-evict :
      (junk done : List CacheEntry)
      → bytes_of done + bytes_of junk ≤ total
      → sweep_junk entries limit now grace total junk (progress done)
        ≡ progress (evict limit now grace total (map junk_batch junk) done)
  unfolding sweep_junk evict
  sweep_junk-evict [] done h = refl
  sweep_junk-evict (e ∷ junk) done h =
      rw (sub64_lem total (bytes_of done) fits (omega arith))
        (elim (Bool-cases (leb (total - bytes_of done) limit)) [
          | inl stop ↦ rw stop
          | inr go ↦ elim (Bool-cases (ltb (now - e.mtime_unix) grace)) [
            | inl fresh ↦ rw (go, fresh) (sweep_junk-evict junk done (omega arith))
            | inr old ↦
                rw (go, old)
                  (ap (sweep_junk entries limit now grace total junk)
                      (progress-append done (e ∷ []) e.len (omega arith) (omega arith))
                    ∙ sweep_junk-evict junk (done ++ (e ∷ [])) (
                        omega (arith, sum_by-append {0} (λ (x : CacheEntry). x.len) done (e ∷ []))))
          ]
        ])

  sweep_pairs-evict :
      (bs : List Batch) (done : List CacheEntry)
      → ((b : Batch)
          → In b bs
          → unit_bytes_from entries 0 (names_of b.files) ≡ some (bytes_of b.files))
      → bytes_of done + bytes_of (files_of bs) ≤ total
      → sweep_pairs entries limit now grace total (map as_pair bs) (progress done)
        ≡ some (progress (evict limit now grace total bs done))
  unfolding sweep_pairs evict
  sweep_pairs-evict [] done u h = refl
  sweep_pairs-evict (b ∷ bs) done u h =
      let all = sum_by-append {0} (λ (x : CacheEntry). x.len) b.files (files_of bs) in
      let ih : bytes_of (done ++ b.files) + bytes_of (files_of bs) ≤ total =
        omega (arith, all, sum_by-append {0} (λ (x : CacheEntry). x.len) done b.files) in
      rw (sub64_lem total (bytes_of done) fits (omega arith), u b (inl refl))
        (elim (Bool-cases (leb (total - bytes_of done) limit)) [
          | inl stop ↦ rw stop
          | inr go ↦ elim (Bool-cases (ltb (now - b.mtime) grace)) [
            | inl fresh ↦
                rw (go, fresh) (sweep_pairs-evict bs done (λ c m. u c (inr m)) (omega (arith, all)))
            | inr old ↦
                rw (go, old)
                  (ap (sweep_pairs entries limit now grace total (map as_pair bs))
                      (progress-append done b.files (bytes_of b.files) refl (omega (arith, all)))
                    ∙ sweep_pairs-evict bs (done ++ b.files) (λ c m. u c (inr m)) ih)
          ]
        ])

module _ (entries : List CacheEntry) (dir : IsDirectory entries) where
  unit_bytes_from_lem :
      (acc : ℕ) (files : List CacheEntry)
      → ((e : CacheEntry) → In e files → In e entries)
      → acc + bytes_of files < 2 ^ 64
      → unit_bytes_from entries acc (names_of files) ≡ some (acc + bytes_of files)
  unfolding unit_bytes_from
  unit_bytes_from_lem acc [] m h = ap some (omega arith)
  unit_bytes_from_lem acc (e ∷ files) m h =
      rw
        (
          find_entry_of_In entries e dir.distinct (m e (inl refl)),
          unit_bytes_from,
          add64_lem acc e.len (omega arith),
        )
        (unit_bytes_from_lem (acc + e.len) files (λ x i. m x (inr i)) (omega arith)
          ∙ ap some (omega arith))

  pair_of_lem : (b : CacheEntry) → pair_of entries b ≡ as_pair (blob_batch entries b)
  unfolding pair_of
  pair_of_lem b = ground arith

  pairs_of_lem : pairs_of entries ≡ map as_pair (blob_batches entries)
  unfolding pairs_of
  pairs_of_lem =
      ap (λ f. sort_by_key (λ p. p.mtime) (map f (blobs_of entries))) (fun_ext pair_of_lem)
      ∙ (ap (sort_by_key (λ p. p.mtime))
            (sym (map-map as_pair (blob_batch entries) (blobs_of entries)))
          ∙ sort_by_key-map (λ b. b.mtime) (λ p. p.mtime) as_pair (λ b. refl)
              (map (blob_batch entries) (blobs_of entries)))

  files_of-append :
      (xs ys : List Batch)
      → bytes_of (files_of (xs ++ ys)) ≡ bytes_of (files_of xs) + bytes_of (files_of ys)
  files_of-append [] ys = omega arith
  files_of-append (x ∷ xs) ys = omega (
    arith,
    files_of-append xs ys,
    sum_by-append {0} (λ (e : CacheEntry). e.len) x.files (files_of (xs ++ ys)),
    sum_by-append {0} (λ (e : CacheEntry). e.len) x.files (files_of xs),
  )

  files_of-junk :
      (junk : List CacheEntry) → bytes_of (files_of (map junk_batch junk)) ≡ bytes_of junk
  files_of-junk [] = refl
  files_of-junk (e ∷ junk) = omega (arith, files_of-junk junk)

  evict-le :
      (limit now grace total : ℕ) (bs : List Batch) (done : List CacheEntry)
      → bytes_of (evict limit now grace total bs done) ≤ bytes_of done + bytes_of (files_of bs)
  unfolding evict
  evict-le limit now grace total [] done = omega arith
  evict-le limit now grace total (b ∷ bs) done = ground (
    arith,
    evict-le limit now grace total bs done,
    evict-le limit now grace total bs (done ++ b.files),
    sum_by-append (λ (e : CacheEntry). e.len) done b.files,
    sum_by-append (λ (e : CacheEntry). e.len) b.files (files_of bs),
  )

  files_of-le : (b : Batch) (bs : List Batch) → In b bs → bytes_of b.files ≤ bytes_of (files_of bs)
  files_of-le b [] m = elim m [ ]
  files_of-le b (x ∷ bs) (inl e) = omega (
    arith,
    ap (λ (c : Batch). bytes_of c.files) e,
    sum_by-append {0} (λ (e : CacheEntry). e.len) x.files (files_of bs),
  )
  files_of-le b (x ∷ bs) (inr m) = omega (
    arith,
    files_of-le b bs m,
    sum_by-append {0} (λ (e : CacheEntry). e.len) x.files (files_of bs),
  )

  unit_bytes_of_blob :
      (b : Batch)
      → In b (blob_batches entries)
      → unit_bytes_from entries 0 (names_of b.files) ≡ some (bytes_of b.files)
  unit_bytes_of_blob b m =
      let i = In-append_right b (map junk_batch (junk_of entries)) (blob_batches entries) m in
      unit_bytes_from_lem 0 b.files (λ e h. IsBatch-files entries b e (In-batches entries b i) h)
        (omega (
          arith,
          dir.fits,
          files_of-le b (batches entries) i,
          bytes_of_files-le entries dir.distinct,
        ))
      ∙ ap some (omega arith)

  -- The planner never panics and never wraps: it returns the names of the files that the plain
  -- loop over the batches deletes.
  pub plan_evictions-evict :
      (limit now grace : ℕ)
      → plan_evictions entries limit now grace
        ≡ some (names_of (evict limit now grace (bytes_of entries) (batches entries) []))
  unfolding plan_evictions
  plan_evictions-evict limit now grace =
      let js = junk_of entries in
      let total = bytes_of entries in
      let swept = evict limit now grace total (map junk_batch js) [] in
      let room : bytes_of js + bytes_of (files_of (blob_batches entries)) ≤ total = omega (
        arith,
        bytes_of_files-le entries dir.distinct,
        files_of-append (map junk_batch js) (blob_batches entries),
        files_of-junk js,
      ) in
      rw
        (
          cache_usage_bytes_lem entries dir.fits,
          pairs_of_lem,
          sweep_junk-evict entries limit now grace total dir.fits js [] (omega (arith, room)),
          evict-append limit now grace total (map junk_batch js) (blob_batches entries) [],
          sweep_pairs-evict entries limit now grace total dir.fits (blob_batches entries) swept
              unit_bytes_of_blob
              (omega (
                arith,
                room,
                evict-le limit now grace total (map junk_batch js) [],
                files_of-junk js,
              )),
        )
        (elim (Bool-cases (leb total limit)) [
          | inl under ↦ rw under (
              ap (λ d. some (names_of d))
                (sym (
                  ap (evict limit now grace total (blob_batches entries))
                    (evict_stop limit now grace total (map junk_batch js) [] (ground arith))
                  ∙ evict_stop limit now grace total (blob_batches entries) [] (ground arith))))
          | inr over ↦ rw over
        ])
