-- ===== src/Tasks/Race.antt =====
-- What the gate does not exclude: between a match and `mark_dirty` nothing holds the slot.
use o_llm.Common.{
  ℕ, ◌+◌, ◌-◌, ◌<◌, ◌≡◌, refl, sym, ap, subst, ◌∙◌, Bool, true, false, Option, none, some, List,
  arith, ok, nat_eq, nat_eq_iff,
}
use o_llm.Common.Text.{Text}
use o_llm.Common.Family.{replace, replace_same, replace_other}
use o_llm.Json.{Json}
use o_llm.Backend.{SlotState, Backend}
use o_llm.Slots.{Slots, owned_slot, pick_free, mark_dirty}
use o_llm.Slots.Views.{hold_of, hold_of-mark_dirty}
use o_llm.Slots.Scans.{pick_free-Free, pick_free-Agree}
use o_llm.Publish.{Disk, Router}
use o_llm.Chat.{Cache, Config, Libraries, after_report}
use o_llm.Tasks.{
  Shared, Turn, Pc, waiting, scanning, asking, picking, taking, sending, looked, advance, blob,
  after_pick,
}
use o_llm.Tasks.System.{System, Reach, start_of, run, here, later}
use o_llm.Tasks.Alone.{Alone, over, go}

module _ {W V : Type 0} (J : Json V) (lib : Libraries V) (disk : Disk W) (cache : Cache W)
    (be : Backend W V) (cfg : Config) where
  -- With `k` tasks in the gate to match.
  abbrev matched : ℕ → Router W → Shared W
  matched k r = record { router = r; gate = record { readers = k; writing = false } }

  to_pick :
      (t : Turn V) (r : Router W) (k : ℕ) (arr : List SlotState)
      → owned_slot t.session r.slots ≡ none
      → disk.exists (blob J lib disk cache be cfg t.session) r.world ≡ false
      → be.slots r.world ≡ (ok arr, r.world)
      → Alone J lib disk cache be cfg t
          (picking false (ok arr), matched (k + 1) r)
          (waiting, matched k r)
  unfolding advance looked
  to_pick t r k arr o d b = go refl (
      go {y = (scanning false, matched (k + 1) r)}
        (ap (λ x. some (scanning x, matched (k + 1) r)) d)
        (go {y = (asking false, matched (k + 1) r)}
          (ap (λ x. some (looked J lib disk cache be cfg (matched (k + 1) r) false x)) o)
          (go (ap (λ x. some (picking false x.0, matched (k + 1) (record r { world = x.1 }))) b)
            over)))

  to_take :
      (t : Turn V) (r : Router W) (k id : ℕ) (arr : List SlotState)
      → (pick_free arr r.slots).0 ≡ some id
      → Alone J lib disk cache be cfg t
          (taking id, matched (k - 1) (record r { slots = (pick_free arr r.slots).1 }))
          (picking false (ok arr), matched k r)
  unfolding advance after_report
  to_take t r k id arr e =
      go
        (ap
          (λ o. some (
            after_pick false
                (elim o as (λ _. Option (ℕ × Bool)) [ none ↦ none | some i ↦ some (i, false) ]),
            matched (k - 1) (record r { slots = (pick_free arr r.slots).1 }),
          ))
          e)
        over

  to_send :
      (t : Turn V) (r : Router W) (id : ℕ)
      → Alone J lib disk cache be cfg t
          (sending (some id), matched 0 (record r { slots = mark_dirty id t.session r.slots }))
          (taking id, matched 0 r)
  unfolding advance
  to_send t r id = go refl over

  module _ (turns : ℕ → Turn V) (n : ℕ) where
    abbrev Reaches : System W → System W → Type 0
    Reaches = Reach J lib disk cache be cfg turns n

    Reach-trans : {x y z : System W} → Reaches x y → Reaches y z → Reaches x z
    Reach-trans a here = a
    Reach-trans a (later b s) = later (Reach-trans a b) s

    -- The steps of one task as steps of the system, in which the others stand still.
    run_task :
        (i : ℕ) (q : Pc × Shared W) (x : System W) (m : Pc × Shared W)
        → i < n
        → m.0 ≡ x.pc i
        → m.1 ≡ x.shared
        → Alone J lib disk cache be cfg (turns i) q m
        → (z : System W) × Reaches x z
          × (z.pc i ≡ q.0)
          × (z.shared ≡ q.1)
          × ((j : ℕ) → nat_eq i j ≡ false → z.pc j ≡ x.pc j)
    run_task i q x m l p s over = (x, here, sym p, sym s, λ j d. refl)
    run_task i q x m l p s (go {y} e a) =
        let f : advance J lib disk cache be cfg (turns i) (x.pc i) x.shared ≡ some y =
          subst (λ u. advance J lib disk cache be cfg (turns i) (x.pc i) u ≡ some y) s
            (subst (λ u. advance J lib disk cache be cfg (turns i) u m.1 ≡ some y) p e) in
        let x' : System W = record { shared = y.1; pc = replace x.pc i y.0 } in
        let (z, r, b, c, o) = run_task i q x' y l (sym (replace_same x.pc i y.0)) refl a in
        (
          z,
          Reach-trans (later here (run i l f)) r,
          b,
          c,
          λ j d. o j d ∙ replace_other x.pc i j y.0 d,
        )

    taken :
        (id : ℕ) (session : Text) (g : Slots)
        → hold_of id (mark_dirty id session g) ≡ (some session, true)
    taken id session g = hold_of-mark_dirty id id session g ∙ rw ((nat_eq_iff id id).1 refl) refl

    -- A reachable state, by the places of two tasks in it.
    module _ (r : Router W) (i j : ℕ) (apart : nat_eq i j ≡ false) where
      abbrev Both : Pc → Pc → Shared W → Type 0
      Both p q s =
          (x : System W) × Reaches (start_of r) x × (x.pc i ≡ p) × (x.pc j ≡ q) × (x.shared ≡ s)

      first_moves :
          {p p' q : Pc} {s s' : Shared W}
          → i < n
          → Alone J lib disk cache be cfg (turns i) (p', s') (p, s)
          → Both p q s
          → Both p' q s'
      first_moves {p} {p'} {q} {s} {s'} l a (x, b, e, f, g) =
          let (z, c, u, v, w) = run_task i (p', s') x (p, s) l (sym e) (sym g) a in
          (z, Reach-trans b c, u, w j apart ∙ f, v)

      second_moves :
          {p q q' : Pc} {s s' : Shared W}
          → j < n
          → Alone J lib disk cache be cfg (turns j) (q', s') (q, s)
          → Both p q s
          → Both p q' s'
      second_moves {p} {q} {q'} {s} {s'} l a (x, b, e, f, g) =
          let (z, c, u, v, w) = run_task j (q', s') x (q, s) l (sym f) (sym g) a in
          (z, Reach-trans b c, w i (ground (arith, apart)) ∙ e, u, v)

    -- Two turns on one slot. Let two requests of new sessions without a blob come at once, and let
    -- the first scan over the report find slot `id`. Then there is an order of their steps in which
    -- both are steered to `id`: the registry gives it to the second, and the first is about to send
    -- its turn there all the same.
    pub both_steered :
        (r : Router W) (i j id : ℕ) (arr : List SlotState)
        → i < n
        → j < n
        → nat_eq i j ≡ false
        → owned_slot (turns i).session r.slots ≡ none
        → owned_slot (turns j).session r.slots ≡ none
        → disk.exists (blob J lib disk cache be cfg (turns i).session) r.world ≡ false
        → disk.exists (blob J lib disk cache be cfg (turns j).session) r.world ≡ false
        → be.slots r.world ≡ (ok arr, r.world)
        → (pick_free arr r.slots).0 ≡ some id
        → (z : System W) × Reaches (start_of r) z
          × (z.pc i ≡ sending (some id))
          × (z.pc j ≡ sending (some id))
          × (hold_of id z.shared.router.slots ≡ (some (turns j).session, true))
    both_steered r i j id arr li lj d oi oj di dj b e =
        let r1 : Router W = record r { slots = (pick_free arr r.slots).1 } in
        let r2 : Router W = record r { slots = (pick_free arr r1.slots).1 } in
        let r3 : Router W = record r { slots = mark_dirty id (turns i).session r2.slots } in
        let e2 : (pick_free arr r1.slots).0 ≡ some id =
          pick_free-Agree arr r.slots r1.slots (pick_free-Free arr r.slots).0 ∙ e in
        let (z, a, p, q, s) = second_moves r i j d lj (to_send (turns j) r3 id) (
          first_moves r i j d li (to_send (turns i) r2 id) (
            second_moves r i j d lj (to_take (turns j) r1 1 id arr e2) (
              first_moves r i j d li (to_take (turns i) r 2 id arr e) (
                second_moves r i j d lj (to_pick (turns j) r 1 arr oj dj b) (
                  first_moves r i j d li (to_pick (turns i) r 0 arr oi di b)
                    (start_of r, here, refl, refl, refl)))))) in
        (z, a, p, q, ap (λ x. hold_of id x.router.slots) s ∙ taken id (turns j).session r3.slots)
