-- ===== src/Tasks/Counting.antt =====
-- Who is in the gate: the counts of a task, and what entering and leaving do to them.
use o_llm.Common.{
  ℕ, ◌+◌, ◌≤◌, ◌≡◌, refl, sym, ap, subst, ◌⊎◌, inl, inr, Bool, true, false, not, ◌&&◌, ◌||◌, Option,
  none, some, arith, nat_eq, nat_eq_iff, if◌then◌else◌,
}
use o_llm.Common.Text.{Text}
use o_llm.Chat.{Response, Pumped}
use o_llm.Tasks.{
  Gate, Save, queued, writing, publishing, touching, cleaning, Saved, pending, returned, Pc,
  looking, scanning, asking, picking, evicting, restoring, taking, sending, saving, done,
  release_read, release_write, enter_read, enter_write, after_pick, after_search, after_victim,
  after_final, end_of, leave_of, pumped_of,
}

-- Whether a task is in the gate to match, or to write.
abbrev pub reads : Pc → ℕ
reads looking = 1
reads (scanning _) = 1
reads (asking _) = 1
reads (picking _ _) = 1
reads _ = 0

abbrev pub holds : Save → ℕ
holds writing = 1
holds publishing = 1
holds touching = 1
holds cleaning = 1
holds queued = 0

abbrev pub held : Saved → ℕ
held (pending p) = holds p
held (returned b) = 0

abbrev pub writes : Pc → ℕ
writes (evicting _ _ _ p) = holds p
writes (saving _ _ p) = holds p
writes _ = 0

abbrev pub bit : Bool → ℕ
bit false = 0
bit true = 1

-- A statement about the result of a step, if there is one.
abbrev pub WhenSome {ℓ κ} : {A : Type ℓ} → (A → Type κ) → Option A → Type κ
WhenSome P none = Unit
WhenSome P (some a) = P a

-- The gate counts who is in it, and not both a reader and a writer are.
pub record IsCounted (g : Gate) (r w : ℕ) : Type 0 where
  pub readers : g.readers ≡ r
  pub writers : bit g.writing ≡ w
  pub apart : (g.readers ≡ 0) ⊎ (g.writing ≡ false)

-- From `g` to `g'` the counts change as the task's do, and who entered was alone.
pub record IsMove (g g' : Gate) (r w r' w' : ℕ) : Type 0 where
  pub readers : g'.readers + r ≡ g.readers + r'
  pub writers : bit g'.writing + w ≡ bit g.writing + w'
  pub apart : ((g.readers ≡ 0) ⊎ (g.writing ≡ false)) → (g'.readers ≡ 0) ⊎ (g'.writing ≡ false)

pub stay : (g : Gate) (r w r' w' : ℕ) → r ≡ r' → w ≡ w' → IsMove g g r w r' w'
stay g r w r' w' p q = record { readers = omega arith; writers = omega arith; apart = λ a. a }

pub enter_read-IsMove : (g : Gate) → WhenSome (λ g'. IsMove g g' 0 0 1 0) (enter_read g)
enter_read-IsMove g = by_writing g.writing refl
  where
    by_writing :
        (b : Bool)
        → g.writing ≡ b
        → WhenSome
            (λ g'. IsMove g g' 0 0 1 0)
            (if b then none else some (record g { readers = g.readers + 1 }))
    by_writing true e = tt
    by_writing false e = record { readers = omega arith; writers = omega arith; apart = λ a. inr e }

pub enter_write-IsMove : (g : Gate) → WhenSome (λ g'. IsMove g g' 0 0 0 1) (enter_write g)
enter_write-IsMove g = by_tests g.writing (nat_eq g.readers 0) refl refl
  where
    by_tests :
        (b c : Bool)
        → g.writing ≡ b
        → nat_eq g.readers 0 ≡ c
        → WhenSome
            (λ g'. IsMove g g' 0 0 0 1)
            (if b || not c then none else some (record g { writing = true }))
    by_tests true c e f = tt
    by_tests false false e f = tt
    by_tests false true e f = record {
      readers = refl;
      writers = ap (λ b. bit b + 1) (sym e);
      apart = λ a. inl ((nat_eq_iff g.readers 0).0 f);
    }

pub release_read-IsMove : (g : Gate) → 1 ≤ g.readers → IsMove g (release_read g) 1 0 0 0
release_read-IsMove g h = record {
  readers = omega arith;
  writers = refl;
  apart = λ a. elim a [ inl e ↦ inl (omega arith) | inr e ↦ inr e ];
}

pub release_write-IsMove : (g : Gate) → 1 ≤ bit g.writing → IsMove g (release_write g) 0 1 0 0
release_write-IsMove g h = by_writing g.writing refl
  where
    by_writing : (b : Bool) → g.writing ≡ b → IsMove g (release_write g) 0 1 0 0
    by_writing true e = record {
      readers = refl;
      writers = ap (λ b. bit b + 0) (sym e);
      apart = λ a. inr refl;
    }
    by_writing false e = absurd (let z : 1 ≤ bit false = subst (λ b. 1 ≤ bit b) e h in omega arith)

-- A task that is not in the gate.
abbrev pub IsQuiet : Pc → Type 0
IsQuiet p = (0 ≡ reads p) × (0 ≡ writes p)

pub if-IsQuiet : (b : Bool) (p q : Pc) → IsQuiet p → IsQuiet q → IsQuiet (if b then p else q)
if-IsQuiet true p q h k = h
if-IsQuiet false p q h k = k

pub after_pick-IsQuiet : (d : Bool) (o : Option (ℕ × Bool)) → IsQuiet (after_pick d o)
after_pick-IsQuiet d none = (refl, refl)
after_pick-IsQuiet d (some (id, hot)) =
    if-IsQuiet (d && not hot) (restoring id) (taking id) (refl, refl) (refl, refl)

pub after_search-IsQuiet : (d : Bool) (o : Option (ℕ × Option Text)) → IsQuiet (after_search d o)
after_search-IsQuiet d none = (refl, refl)
after_search-IsQuiet d (some (id, none)) =
    if-IsQuiet d (restoring id) (taking id) (refl, refl) (refl, refl)
after_search-IsQuiet d (some (id, some v)) = (refl, refl)

pub end_of-IsQuiet : (o : Option ℕ) (resp : Response) → IsQuiet (end_of o resp)
end_of-IsQuiet none resp = (refl, refl)
end_of-IsQuiet (some id) resp = (refl, refl)

pub leave_of-IsQuiet : (o : Option ℕ) (resp : Response) → IsQuiet (leave_of o resp)
leave_of-IsQuiet none resp = (refl, refl)
leave_of-IsQuiet (some id) resp = (refl, refl)

pub pumped_of-IsQuiet : (o : Option ℕ) (resp : Response) (p : Pumped) → IsQuiet (pumped_of o resp p)
pumped_of-IsQuiet o resp p =
    if-IsQuiet (not p.failed && not p.disconnected) (end_of o resp)
      (if p.disconnected then leave_of o resp else done resp) (end_of-IsQuiet o resp)
      (if-IsQuiet p.disconnected (leave_of o resp) (done resp) (leave_of-IsQuiet o resp)
        (refl, refl))

-- A save's step seen from the task that makes it.
pub after_victim-counts :
    (d : Bool) (id : ℕ) (v : Text) (p : Saved)
    → (0 ≡ reads (after_victim d id v p)) × (held p ≡ writes (after_victim d id v p))
after_victim-counts d id v (returned b) =
    if-IsQuiet b (if d then restoring id else taking id) (sending none)
      (if-IsQuiet d (restoring id) (taking id) (refl, refl) (refl, refl)) (refl, refl)
after_victim-counts d id v (pending p) = (refl, refl)

pub after_final-counts :
    (id : ℕ) (resp : Response) (p : Saved)
    → (0 ≡ reads (after_final id resp p)) × (held p ≡ writes (after_final id resp p))
after_final-counts id resp (returned b) = (refl, refl)
after_final-counts id resp (pending p) = (refl, refl)

pub retarget :
    {g g' : Gate} {r w r' w' r'' w'' : ℕ}
    → IsMove g g' r w r' w'
    → r' ≡ r''
    → w' ≡ w''
    → IsMove g g' r w r'' w''
retarget {g} {g'} {r} {w} {r'} {w'} {r''} {w''} m p q =
    subst (λ k. IsMove g g' r w r'' k) q (subst (λ k. IsMove g g' r w k w') p m)
