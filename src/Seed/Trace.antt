-- ===== src/Seed/Trace.antt =====
-- What the protocol of the seed dance allows: the calls that `prepare` of src/seed.rs may make, in
-- which order and on what answers. The seams are any at all, watched by a record of every call with
-- its answer, as src/fake.rs records the calls.
use o_llm.Common.{
  ℕ, ◌<◌, find-some, ◌≡◌, refl, inl, inr, In, ok, err, not, ◌&&◌, ltb, nat_eq, nat_eq_iff,
  Option-cases, arith, Bool, true, false, none, some, List, [], ◌∷◌, ◌++◌, Result, is_ok,
  if◌then◌else◌,
}
use o_llm.Common.Text.{Text}
use o_llm.Common.Dict.{lookup, name_eq}
use o_llm.Json.{Json}
use o_llm.Backend.{SlotState, Backend}
use o_llm.Seed.{
  Bag, Publisher, SeedResult, restored, cold_prefill, seeded, failure, skipped, seed_blob_name,
  scratch_of, is_open, is_confirmed, reported, system_hash, open_entry, is_cached,
}

pub data Event (V : Type 0) : Type 0 where
  seen : Result (List SlotState) Text → Event V
  prefilled : ℕ → V → Bool → Event V
  saved : ℕ → Text → Bool → Event V
  restored_into : ℕ → Text → Bool → Event V
  published : Text → Text → Bool → Event V
  chatted : V → Event V

abbrev pub Watched : Type 0 → Type 0 → Type 0
Watched W V = W × List (Event V)

abbrev pub watch : {W V A : Type 0} → (A → Event V) → (W → A × W) → Watched W V → A × Watched W V
watch e m (w, log) = let (r, w') = m w in (r, (w', log ++ (e r ∷ [])))

module _ {W V : Type 0} where
  abbrev pub watched_backend : Backend W V → Backend (Watched W V) V
  watched_backend be = record {
    slots = watch seen be.slots;
    prefill_only = λ slot v. watch (λ r. prefilled slot v (is_ok r)) (be.prefill_only slot v);
    save_slot = λ id name. watch (λ r. saved id name (is_ok r)) (be.save_slot id name);
    restore_slot =
        λ id name. watch (λ r. restored_into id name (is_ok r)) (be.restore_slot id name);
    chat = λ body. watch (λ _. chatted body) (be.chat body);
  }

  abbrev pub watched_publisher : Publisher W → Publisher (Watched W V)
  watched_publisher pu = record {
    publish =
        λ scratch name. watch (λ r. published scratch name (is_ok r)) (pu.publish scratch name);
  }

-- The report shows the slot idle; and idle at a position that is not 0.
abbrev pub ShownIdle : ℕ → Result (List SlotState) Text → Type 0
ShownIdle slot r =
    (arr : List SlotState) × (s : SlotState) × (r ≡ ok arr)
    × In s arr
    × (s.id ≡ slot)
    × (s.is_processing ≡ false)

abbrev pub ShownLanded : ℕ → Result (List SlotState) Text → Type 0
ShownLanded slot r =
    (arr : List SlotState) × (s : SlotState) × (r ≡ ok arr)
    × In s arr
    × (s.id ≡ slot)
    × (s.is_processing ≡ false)
    × (0 < s.n_tokens)

reported-In :
    (slot : ℕ) (r : Result (List SlotState) Text) (s : SlotState)
    → reported slot r ≡ some s
    → (arr : List SlotState) × (r ≡ ok arr) × In s arr × (s.id ≡ slot)
reported-In slot (err x) s e = absurd cc
reported-In slot (ok arr) s e =
    let (i, k) = find-some (λ t. nat_eq t.id slot) s arr e in
    (arr, refl, i, (nat_eq_iff s.id slot).0 k)

pub is_open-ShownIdle :
    (slot : ℕ) (r : Result (List SlotState) Text)
    → is_open (reported slot r) ≡ true
    → ShownIdle slot r
is_open-ShownIdle slot r e = elim (Option-cases (reported slot r)) [
  | inl n ↦ let z : false ≡ true = rw (n) at e in absurd cc
  | inr (s, f) ↦
      let z : not s.is_processing ≡ true = rw (f) at e in
      let (arr, q, i, k) = reported-In slot r s f in (arr, s, q, i, k, ground (arith, z))
]

pub is_confirmed-ShownLanded :
    (slot : ℕ) (r : Result (List SlotState) Text)
    → is_confirmed (reported slot r) ≡ true
    → ShownLanded slot r
is_confirmed-ShownLanded slot r e = elim (Option-cases (reported slot r)) [
  | inl n ↦ let z : false ≡ true = rw (n) at e in absurd cc
  | inr (s, f) ↦
      let z : (not s.is_processing && ltb 0 s.n_tokens) ≡ true = rw (f) at e in
      let (arr, q, i, k) = reported-In slot r s f in
      (arr, s, q, i, k, ground (arith, z), ground (arith, z))
]

-- The calls of one dance: prefill, then the look at the slot, then the save into the scratch file,
-- then its publication. Each only if the one before succeeded, and the save only if the look
-- showed the slot idle at a position that is not 0.
pub data DanceTrace {V : Type 0} (slot : ℕ) (name : Text) (system : V)
    : SeedResult → List (Event V) → Type 0 where
  prefill_failed : DanceTrace slot name system failure (prefilled slot system false ∷ [])
  unconfirmed :
      (r : Result (List SlotState) Text)
      → is_confirmed (reported slot r) ≡ false
      → DanceTrace slot name system failure (prefilled slot system true ∷ seen r ∷ [])
  save_failed :
      (r : Result (List SlotState) Text)
      → ShownLanded slot r
      → DanceTrace slot name system failure
          (prefilled slot system true ∷ seen r ∷ saved slot (scratch_of name) false ∷ [])
  publish_failed :
      (r : Result (List SlotState) Text)
      → ShownLanded slot r
      → DanceTrace slot name system failure (
          prefilled slot system true
          ∷ seen r
          ∷ saved slot (scratch_of name) true
          ∷ published (scratch_of name) name false
          ∷ [])
  all_done :
      (r : Result (List SlotState) Text)
      → ShownLanded slot r
      → DanceTrace slot name system seeded (
          prefilled slot system true
          ∷ seen r
          ∷ saved slot (scratch_of name) true
          ∷ published (scratch_of name) name true
          ∷ [])

-- The calls of one admission.
module _ {V : Type 0} (J : Json V) (sha256 : List ℕ → List ℕ) where
  pub data PrepareTrace (slot : ℕ) (messages : V) (bag : Bag V)
      : SeedResult → List (Event V) → Type 0 where
    no_system :
        system_hash J sha256 messages ≡ some none → PrepareTrace slot messages bag skipped []
    gated :
        (r : Result (List SlotState) Text)
        → is_open (reported slot r) ≡ false
        → PrepareTrace slot messages bag skipped (seen r ∷ [])
    second_sight :
        (key : Text) (r : Result (List SlotState) Text) (found : Bool)
        → system_hash J sha256 messages ≡ some (some key)
        → ShownIdle slot r
        → is_cached (lookup key bag) ≡ true
        → PrepareTrace slot messages bag
            (if found then restored else cold_prefill)
            (seen r ∷ restored_into slot (seed_blob_name key) found ∷ [])
    danced :
        (key : Text) (r : Result (List SlotState) Text) {result : SeedResult}
        {events : List (Event V)}
        → system_hash J sha256 messages ≡ some (some key)
        → ShownIdle slot r
        → is_cached (lookup key bag) ≡ false
        → DanceTrace slot
            (seed_blob_name key)
            (open_entry J messages (lookup key bag)).system
            result
            events
        → PrepareTrace slot messages bag result (seen r ∷ events)
