-- ===== src/Tasks/Exclusion.antt =====
-- The gate through any interleaving (R1).
use o_llm.Common.{
  ℕ, ◌+◌, ◌≤◌, ◌<◌, ◌≡◌, refl, sym, subst, inl, inr, Bool, true, false, arith, nat_eq,
}
use o_llm.Common.Family.{total, total-replace, le-total, two_le-total, total_zero}
use o_llm.Json.{Json}
use o_llm.Backend.{Backend}
use o_llm.Publish.{Disk, Router}
use o_llm.Chat.{Cache, Config, Libraries}
use o_llm.Tasks.{Turn, waiting}
use o_llm.Tasks.System.{System, Step, Reach, start_of, run, outside, here, later}
use o_llm.Tasks.Counting.{reads, writes, bit, WhenSome, IsCounted, IsMove}
use o_llm.Tasks.Moves.{TaskMove, advance-TaskMove}

abbrev pub Counted : {W : Type 0} → ℕ → System W → Type 0
Counted n x = IsCounted x.shared.gate (total reads n x.pc) (total writes n x.pc)

module _ {W V : Type 0} (J : Json V) (lib : Libraries V) (disk : Disk W) (cache : Cache W)
    (be : Backend W V) (cfg : Config) (turns : ℕ → Turn V) (n : ℕ) where
  Step-Counted :
      {x y : System W} → Step J lib disk cache be cfg turns n x y → Counted n x → Counted n y
  Step-Counted {x} (run i {p} {s} l e) c =
      let r = le-total reads n x.pc i l in
      let w = le-total writes n x.pc i l in
      let m : IsMove x.shared.gate s.gate (reads (x.pc i)) (writes (x.pc i)) (reads p) (writes p) =
        subst (WhenSome (TaskMove J lib disk cache be cfg (x.pc i) x.shared)) e (
          advance-TaskMove J lib disk cache be cfg (turns i) (x.pc i) x.shared
            (omega (arith, c.readers)) (omega (arith, c.writers))) in
      record {
        readers = omega (arith, c.readers, m.readers, total-replace reads n x.pc i p l);
        writers = omega (arith, c.writers, m.writers, total-replace writes n x.pc i p l);
        apart = m.apart c.apart;
      }
  Step-Counted (outside w) c = record { readers = c.readers; writers = c.writers; apart = c.apart }

  pub Reach-Counted :
      {r : Router W} {x : System W}
      → Reach J lib disk cache be cfg turns n (start_of r) x
      → Counted n x
  Reach-Counted here = record {
    readers = sym (total_zero reads n waiting refl);
    writers = sym (total_zero writes n waiting refl);
    apart = inl refl;
  }
  Reach-Counted (later r st) = Step-Counted st (Reach-Counted r)

  -- R1, a write holds the gate exclusively. However the requests interleave: while one is in a
  -- save, from its entry into the gate to the publication, no other is in a match or in a save.
  pub Reach-exclusive :
      (r : Router W) (x : System W) (i j : ℕ)
      → Reach J lib disk cache be cfg turns n (start_of r) x
      → i < n
      → j < n
      → nat_eq i j ≡ false
      → writes (x.pc i) ≡ 1
      → (reads (x.pc j) ≡ 0) × (writes (x.pc j) ≡ 0)
  Reach-exclusive r x i j a l k d w =
      let c = Reach-Counted a in
      let p = two_le-total writes n x.pc i j l k d in
      let q = le-total reads n x.pc j k in
      elim c.apart [
        | inl z ↦ (omega (arith, c.readers), by_bit x.shared.gate.writing c.writers p w)
        | inr z ↦ absurd (none_writes x.shared.gate.writing z c.writers p w)
      ]
    where
      by_bit :
          (b : Bool)
          → bit b ≡ total writes n x.pc
          → writes (x.pc i) + writes (x.pc j) ≤ total writes n x.pc
          → writes (x.pc i) ≡ 1
          → writes (x.pc j) ≡ 0
      by_bit true e p w = omega arith
      by_bit false e p w = omega arith

      none_writes :
          (b : Bool)
          → b ≡ false
          → bit b ≡ total writes n x.pc
          → writes (x.pc i) + writes (x.pc j) ≤ total writes n x.pc
          → writes (x.pc i) ≡ 1
          → ⊥
      none_writes true z e p w = cc
      none_writes false z e p w = omega arith
