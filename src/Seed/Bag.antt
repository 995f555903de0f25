-- ===== src/Seed/Bag.antt =====
-- What `prepare` does to the bag.

use o_llm.Common.{
  ℕ, ◌≡◌, refl, subst, ◌∙◌, ◌≢◌, ◌⊎◌, inl, inr, Bool, true, false, some, List, arith, is_ok,
  Bool-cases, if◌then◌else◌,
}
use o_llm.Common.Text.{Text, text_eq_iff, text_eq_refl}
use o_llm.Common.Dict.{lookup, insert, name_eq, lookup-insert}
use o_llm.Json.{Json}
use o_llm.Backend.{Backend}
use o_llm.Seed.{
  Bag, BagEntry, cached, failed, Publisher, SeedResult, restored, cold_prefill, seeded, failure,
  skipped, Dance, reported, is_open, system_hash, seed_blob_name, open_entry, is_cached,
  mark_cached, mark_failed, dance, sight, after_restore, after_gate, admit, prepare, state_of,
}

-- The bag after one admission of the family `key`, by the result: a dance leaves the family
-- cached or failed, anything else leaves the bag as it was, and no other family changes.
pub record BagStep {V : Type 0} (key : Text) (old : Bag V) (r : SeedResult) (new : Bag V)
    : Type 0 where
  pub others : (j : Text) → key ≢ j → lookup j new ≡ lookup j old
  pub on_seeded : r ≡ seeded → state_of key new ≡ some cached
  pub on_failure : r ≡ failure → state_of key new ≡ some failed
  pub on_quiet : (r ≡ skipped) ⊎ (r ≡ restored) ⊎ (r ≡ cold_prefill) → new ≡ old

module _ {V : Type 0} (J : Json V) where
  seeded-BagStep :
      (key : Text) (e : BagEntry V) (bag : Bag V)
      → BagStep key bag seeded (mark_cached key (insert key e bag))
  unfolding mark_cached state_of
  seeded-BagStep key e bag =
      let found : lookup key (insert key e bag) ≡ some e =
        lookup-insert key key e bag ∙ rw (text_eq_refl key) in
      rw (found, mark_cached)
        (record {
          others = λ j n. ground (
            arith,
            lookup-insert key j (record e { state = cached }) (insert key e bag),
            lookup-insert key j e bag,
            text_eq_iff key j,
          );
          on_seeded = λ _. rw (
            lookup-insert key key (record e { state = cached }) (insert key e bag),
            text_eq_refl key,
          );
          on_failure = λ h. cc;
          on_quiet = λ h. ground arith;
        })

  failure-BagStep :
      (key : Text) (e : BagEntry V) (bag : Bag V)
      → BagStep key bag failure (mark_failed J key (insert key e bag))
  unfolding mark_failed state_of
  failure-BagStep key e bag =
      let found : lookup key (insert key e bag) ≡ some e =
        lookup-insert key key e bag ∙ rw (text_eq_refl key) in
      rw found (record {
        others = λ j n. ground (
          arith,
          lookup-insert key j (record e { state = failed }) (insert key e bag),
          lookup-insert key j e bag,
          text_eq_iff key j,
        );
        on_seeded = λ h. cc;
        on_failure = λ _. rw (
          lookup-insert key key (record e { state = failed }) (insert key e bag),
          text_eq_refl key,
        );
        on_quiet = λ h. ground arith;
      })

  quiet-BagStep :
      (key : Text) (bag : Bag V) (r : SeedResult) → r ≢ seeded → r ≢ failure → BagStep key bag r bag
  quiet-BagStep key bag r ns nf = record {
    others = λ j n. refl;
    on_seeded = λ h. absurd (ns h);
    on_failure = λ h. absurd (nf h);
    on_quiet = λ h. refl;
  }

module _ {W V : Type 0} (J : Json V) (sha256 : List ℕ → List ℕ) (be : Backend W V)
    (pu : Publisher W) where
  abbrev Ends : Text → Bag V → SeedResult × Dance W V → Type 0
  Ends key bag p = BagStep key bag p.0 p.1.bag

  dance_ends :
      (key : Text) (slot : ℕ) (messages : V) (bag : Bag V) (w : W)
      → let p = dance J sha256 be pu key slot messages bag w in
        let bag' = insert key (open_entry J messages (lookup key bag)) bag in
        ((p.0 ≡ seeded) × (p.1.bag ≡ mark_cached key bag'))
        ⊎ ((p.0 ≡ failure) × (p.1.bag ≡ mark_failed J key bag'))
  unfolding dance
  dance_ends key slot messages bag w = ground arith

  dance-BagStep :
      (key : Text) (slot : ℕ) (messages : V) (bag : Bag V) (w : W)
      → Ends key bag (dance J sha256 be pu key slot messages bag w)
  dance-BagStep key slot messages bag w =
      let e = open_entry J messages (lookup key bag) in
      elim (dance_ends key slot messages bag w) [
        | inl (r, b) ↦ rw (r, b) (seeded-BagStep J key e bag)
        | inr (r, b) ↦ rw (r, b) (failure-BagStep J key e bag)
      ]

  after_restore-BagStep :
      (key : Text) (bag : Bag V) (found : Bool)
      → BagStep key bag (if found then restored else cold_prefill) bag
  after_restore-BagStep key bag true = quiet-BagStep J key bag restored (λ h. cc) (λ h. cc)
  after_restore-BagStep key bag false = quiet-BagStep J key bag cold_prefill (λ h. cc) (λ h. cc)

  admit-BagStep :
      (key : Text) (slot : ℕ) (messages : V) (bag : Bag V) (w : W)
      → Ends key bag (admit J sha256 be pu key slot messages bag w)
  unfolding after_gate sight admit after_restore
  admit-BagStep key slot messages bag w =
      let a = be.slots w in
      let b = be.restore_slot slot (seed_blob_name key) a.1 in
      elim (Bool-cases (is_open (reported slot a.0))) [
        | inr shut ↦ rw shut (quiet-BagStep J key bag skipped (λ h. cc) (λ h. cc))
        | inl opened ↦ elim (Bool-cases (is_cached (lookup key bag))) [
          | inr miss ↦ rw (opened, miss) (dance-BagStep key slot messages bag a.1)
          | inl hit ↦ rw (opened, hit) (after_restore-BagStep key bag (is_ok b.0))
        ]
      ]

  -- Whatever the backend and the publisher answer: after an admission of a family its entry is
  -- cached if the result is `seeded` and failed if it is `failure`, the bag is as it was after
  -- any other result, and the entries of other families never change.
  pub prepare-BagStep :
      (slot : ℕ) (messages : V) (d : Dance W V) (key : Text) (p : SeedResult × Dance W V)
      → system_hash J sha256 messages ≡ some (some key)
      → prepare J sha256 be pu slot messages d ≡ some p
      → BagStep key d.bag p.0 p.1.bag
  unfolding prepare
  prepare-BagStep slot messages d key p e h =
      let q : admit J sha256 be pu key slot messages d.bag d.world ≡ p =
        some_inj (rw (e, prepare) at h) in
      subst (λ z. BagStep key d.bag z.0 z.1.bag) q (admit-BagStep key slot messages d.bag d.world)
    where
      some_inj : {A : Type 0} {a b : A} → some a ≡ some b → a ≡ b
      some_inj k = cc
