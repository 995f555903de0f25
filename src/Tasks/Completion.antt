-- ===== src/Tasks/Completion.antt =====
-- Every request comes to its end, however the steps interleave.
use o_llm.Common.{
  ℕ, zero, suc, ◌+◌, ◌*◌, ◌≤◌, ◌<◌, ◌≡◌, refl, sym, ap, subst, ◌∙◌, ◌⊎◌, inl, inr, Bool, true,
  false, not, ◌||◌, Option, none, some, arith, nat_eq, Option-cases, if◌then◌else◌,
}
use o_llm.Common.Family.{total, total_less, total_inv}
use o_llm.Common.Text.{Text}
use o_llm.Json.{Json}
use o_llm.Backend.{Backend}
use o_llm.Publish.{Disk, Router}
use o_llm.Chat.{Cache, Config, Libraries, Response}
use o_llm.Tasks.{
  Gate, Shared, Turn, Save, queued, writing, publishing, touching, cleaning, Saved, pending, Pc,
  waiting, looking, scanning, asking, picking, searching, sifting, evicting, restoring, taking,
  sending, ending, saving, enforcing, leaving, done, enter_read, enter_write, save_step, with_save,
  advance,
}
use o_llm.Tasks.System.{System, Reach, start_of, run, outside, here, later}
use o_llm.Tasks.Counting.{reads, writes, holds, bit, WhenSome}
use o_llm.Tasks.Exclusion.{Counted, Reach-Counted}
use o_llm.Tasks.Progress.{rank, Nearer, advance-Nearer}

abbrev pub IsDone : Pc → Type 0
IsDone p = (resp : Response) × (p ≡ done resp)

abbrev IsBusy : Gate → Type 0
IsBusy g = (1 ≤ g.readers) ⊎ (g.writing ≡ true)

enter_read-IsBusy : (g : Gate) → enter_read g ≡ none → IsBusy g
enter_read-IsBusy g = by_writing g.writing refl
  where
    by_writing :
        (b : Bool)
        → g.writing ≡ b
        → (if b then none else some (record g { readers = g.readers + 1 })) ≡ none
        → IsBusy g
    by_writing true e h = inr e
    by_writing false e h = absurd cc

enter_write-IsBusy : (g : Gate) → enter_write g ≡ none → IsBusy g
enter_write-IsBusy g = by_tests g.writing (nat_eq g.readers 0) refl refl
  where
    by_tests :
        (b c : Bool)
        → g.writing ≡ b
        → nat_eq g.readers 0 ≡ c
        → (if b || not c then none else some (record g { writing = true })) ≡ none
        → IsBusy g
    by_tests true c e f h = inr e
    by_tests false false e f h = inl (ground arith)
    by_tests false true e f h = absurd cc

module _ {W V : Type 0} (J : Json V) (lib : Libraries V) (disk : Disk W) (cache : Cache W)
    (be : Backend W V) (cfg : Config) where
  abbrev pub CanStep : Turn V → Pc → Shared W → Type 0
  CanStep t p s = (x : Pc × Shared W) × (advance J lib disk cache be cfg t p s ≡ some x)

  abbrev CanSave : ℕ → Text → Save → Shared W → Type 0
  CanSave id session p s =
      (x : Saved × Shared W) × (save_step J lib disk cache be cfg id session p s ≡ some x)

  save_step-CanSave :
      (id : ℕ) (session : Text) (p : Save) (s : Shared W)
      → CanSave id session p s ⊎ ((holds p ≡ 0) × IsBusy s.gate)
  unfolding save_step
  save_step-CanSave id session queued s = elim (Option-cases (enter_write s.gate)) [
    | inl n ↦ inr (refl, enter_write-IsBusy s.gate n)
    | inr (g, e) ↦ inl ((pending writing, record s { gate = g }), rw (e, save_step) refl)
  ]
  save_step-CanSave id session writing s = inl (_, refl)
  save_step-CanSave id session publishing s = inl (_, refl)
  save_step-CanSave id session touching s = inl (_, refl)
  save_step-CanSave id session cleaning s = inl (_, refl)

  with_save-CanStep :
      (f : Saved → Pc) (o : Option (Saved × Shared W))
      → ((x : Saved × Shared W) × (o ≡ some x))
      → (x : Pc × Shared W) × (with_save J lib disk cache be cfg f o ≡ some x)
  with_save-CanStep f none (x, e) = absurd cc
  with_save-CanStep f (some (p, s)) (x, e) = (_, refl)

  -- A task is done, or makes a step, or is not in the gate and waits for others to leave it.
  advance-CanStep :
      (t : Turn V) (p : Pc) (s : Shared W)
      → IsDone p ⊎ (CanStep t p s ⊎ ((reads p ≡ 0) × (writes p ≡ 0) × IsBusy s.gate))
  unfolding advance
  advance-CanStep t waiting s = elim (Option-cases (enter_read s.gate)) [
    | inl n ↦ inr (inr (refl, refl, enter_read-IsBusy s.gate n))
    | inr (g, e) ↦ inr (inl ((looking, record s { gate = g }), rw (e, advance) refl))
  ]
  advance-CanStep t looking s = inr (inl (_, refl))
  advance-CanStep t (scanning d) s = inr (inl (_, refl))
  advance-CanStep t (asking d) s = inr (inl (_, refl))
  advance-CanStep t (picking d r) s = inr (inl (_, refl))
  advance-CanStep t (searching d) s = inr (inl (_, refl))
  advance-CanStep t (sifting d r) s = inr (inl (_, refl))
  advance-CanStep t (evicting d id v p) s = elim (save_step-CanSave id v p s) [
    | inl c ↦ inr (inl (with_save-CanStep _ _ c))
    | inr (h, b) ↦ inr (inr (refl, h, b))
  ]
  advance-CanStep t (restoring id) s = inr (inl (_, refl))
  advance-CanStep t (taking id) s = inr (inl (_, refl))
  advance-CanStep t (sending steer) s = inr (inl (_, refl))
  advance-CanStep t (ending id resp) s = inr (inl (_, refl))
  advance-CanStep t (saving id resp p) s = elim (save_step-CanSave id t.session p s) [
    | inl c ↦ inr (inl (with_save-CanStep _ _ c))
    | inr (h, b) ↦ inr (inr (refl, h, b))
  ]
  advance-CanStep t (enforcing resp) s = inr (inl (_, refl))
  advance-CanStep t (leaving id resp) s = inr (inl (_, refl))
  advance-CanStep t (done resp) s = inl (resp, refl)

  module _ (turns : ℕ → Turn V) (n : ℕ) where
    -- How many of the steps are the requests'.
    unfoldable pub own_steps : {x y : System W} → Reach J lib disk cache be cfg turns n x y → ℕ
    own_steps here = 0
    own_steps (later a (run i l e)) = suc (own_steps a)
    own_steps (later a (outside w)) = own_steps a

    total_start : (m : ℕ) → total rank m (λ _. waiting) ≡ 23 * m
    unfolding total
    total_start zero = refl
    total_start (suc m) = omega (arith, total_start m)

    own_steps-rank :
        {r : Router W} {y : System W} (a : Reach J lib disk cache be cfg turns n (start_of r) y)
        → own_steps a + total rank n y.pc ≤ 23 * n
    unfolding own_steps
    own_steps-rank here = omega (arith, total_start n)
    own_steps-rank (later {y} a (run i {p} {s} l e)) =
        let d : rank p < rank (y.pc i) =
          subst (WhenSome (Nearer J lib disk cache be cfg (rank (y.pc i)))) e
            (advance-Nearer J lib disk cache be cfg (turns i) (y.pc i) y.shared) in
        omega (arith, own_steps-rank a, total_less rank n y.pc i p l d)
    own_steps-rank (later a (outside w)) = own_steps-rank a

    -- `n` requests make at most `23 * n` steps, however these interleave and whatever the server,
    -- the disk and the clients do.
    pub own_steps-le :
        (r : Router W) (y : System W) (a : Reach J lib disk cache be cfg turns n (start_of r) y)
        → own_steps a ≤ 23 * n
    own_steps-le r y a = omega (arith, own_steps-rank a)

    -- Whoever is in the gate can go on.
    holder :
        (x : System W) (j : ℕ)
        → j < n
        → 1 ≤ reads (x.pc j) + writes (x.pc j)
        → (k : ℕ) × (k < n) × CanStep (turns k) (x.pc k) x.shared
    holder x j l h = elim (advance-CanStep (turns j) (x.pc j) x.shared) [
      | inl (resp, e) ↦
          absurd (let z : 1 ≤ 0 = subst (λ p. 1 ≤ reads p + writes p) e h in omega arith)
      | inr (inl s) ↦ (j, l, s)
      | inr (inr (a, b, busy)) ↦ absurd (omega arith)
    ]

    busy-CanStep :
        (x : System W)
        → Counted n x
        → IsBusy x.shared.gate
        → (k : ℕ) × (k < n) × CanStep (turns k) (x.pc k) x.shared
    busy-CanStep x c (inl r) =
        let (j, l, p) = total_inv reads n x.pc (omega (arith, c.readers)) in
        holder x j l (omega arith)
    busy-CanStep x c (inr w) =
        let b : 1 ≡ total writes n x.pc = ap bit (sym w) ∙ c.writers in
        let (j, l, p) = total_inv writes n x.pc (omega arith) in holder x j l (omega arith)

    -- No deadlock. However the requests interleave: while one of the first `n` is not done, one of
    -- them can make its next step.
    pub Reach-progress :
        (r : Router W) (x : System W) (i : ℕ)
        → Reach J lib disk cache be cfg turns n (start_of r) x
        → i < n
        → IsDone (x.pc i) ⊎ ((j : ℕ) × (j < n) × CanStep (turns j) (x.pc j) x.shared)
    Reach-progress r x i a l = elim (advance-CanStep (turns i) (x.pc i) x.shared) [
      | inl d ↦ inl d
      | inr (inl s) ↦ inr (i, l, s)
      | inr (inr (p, q, busy)) ↦
          inr (busy-CanStep x (Reach-Counted J lib disk cache be cfg turns n a) busy)
    ]
