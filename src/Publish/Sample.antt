-- ===== src/Publish/Sample.antt =====
-- A world of files and slot states that meets the interfaces, for the tests.

use o_llm.Common.{
  ℕ, ◌+◌, ◌≡◌, ◌≢◌, refl, ap, ◌⊎◌, sym, ◌∙◌, inl, inr, nat_eq, Bool, true, false, Option, none,
  some, List, [], ◌∷◌, Result, ok, err, is_ok, Bool-cases, if◌then◌else◌,
}
use o_llm.Common.Text.{Text, codes, text_eq, text_eq_iff}
use o_llm.Common.Dict.{Dict, lookup, insert, erase, lookup-insert, lookup-erase, name_eq}
use o_llm.Common.Family.{replace, replace_same, replace_other}
use o_llm.Json.Sample.{
  Value, null, boolean, number, string, array, object, sample_json as J, sample_json-IsLawful,
}
use o_llm.Backend.{SlotState, Backend}
use o_llm.Publish.{Disk, IsDisk}
use o_llm.Publish.Unseen.{Unseen}
use o_llm.Publish.Server.{IsServer}

pub record World : Type 0 where
  pub files : Dict Text (List ℕ)
  pub states : List SlotState
  pub cells : ℕ → ℕ

abbrev pub content : Text → World → Option (List ℕ)
content n w = lookup n w.files

abbrev is_some : Option (List ℕ) → Bool
is_some none = false
is_some (some x) = true

abbrev pub move : Text → Text → Option (List ℕ) → World → Result (Unit {0}) Text × World
move a b none w = (err (codes "not found"), w)
move a b (some c) w = (ok tt, record w { files = insert b c (erase a w.files) })

abbrev pub sample_disk : Disk World
sample_disk = record {
  exists = λ n w. is_some (lookup n w.files);
  open_file = λ n w. (if is_some (lookup n w.files) then ok tt else err (codes "not found"), w);
  sync_all = λ n w. (ok tt, w);
  rename = λ a b w. move a b (lookup a w.files) w;
  sync_dir = λ w. w;
  open_write = λ n w. (if is_some (lookup n w.files) then ok tt else err (codes "not found"), w);
  set_times = λ n w. w;
}

-- A slot's state is a number, and a file that holds a state is that number.
abbrev pub load : ℕ → Option (List ℕ) → World → Result Value Text × World
load id none w = (err (codes "not found"), w)
load id (some []) w = (err (codes "no state"), w)
load id (some (k ∷ ks)) w = (ok null, record w { cells = replace w.cells id k })

-- A turn changes the state of the slot that it is steered to.
abbrev slot_in : Option Value → Option ℕ
slot_in (some (number id)) = some id
slot_in _ = none

abbrev generate : Option ℕ → World → World
generate none w = w
generate (some id) w = record w { cells = replace w.cells id (w.cells id + 10) }

abbrev pub cell : ℕ → World → ℕ
cell j w = w.cells j

abbrev pub encode : ℕ → List ℕ
encode k = k ∷ []

abbrev pub sample_backend : Backend World Value
sample_backend = record {
  slots = λ w. (ok w.states, w);
  prefill_only = λ id v w. (ok null, w);
  save_slot = λ id n w. (ok null, record w { files = insert n (w.cells id ∷ []) w.files });
  restore_slot = λ id n w. load id (lookup n w.files) w;
  chat = λ v w. (
    ok (record { status = 200; stream = ok (codes "hi") ∷ [] }),
    generate (slot_in (J.get v (codes "id_slot"))) w,
  );
}

exists-content : (o : Option (List ℕ)) → is_some o ≡ false → o ≡ none
exists-content none e = refl
exists-content (some x) e = absurd cc

pub ne-text_eq : (a b : Text) → a ≢ b → text_eq b a ≡ false
ne-text_eq a b d = elim (Bool-cases (text_eq b a)) [
  | inl e ↦ absurd (d (sym ((text_eq_iff b a).0 e)))
  | inr e ↦ e
]

move-target :
    (a b : Text) (o : Option (List ℕ)) (w : World)
    → is_ok (move a b o w).0 ≡ true
    → lookup b (move a b o w).1.files ≡ o
move-target a b none w e = absurd cc
move-target a b (some c) w e =
    lookup-insert b b c (erase a w.files) ∙ rw ((text_eq_iff b b).1 refl) refl

move-other :
    (a b m : Text) (o : Option (List ℕ)) (w : World)
    → m ≢ a
    → m ≢ b
    → lookup m (move a b o w).1.files ≡ lookup m w.files
move-other a b m none w p q = refl
move-other a b m (some c) w p q =
    lookup-insert b m c (erase a w.files)
    ∙ rw (ne-text_eq m b q, lookup-erase a m w.files, ne-text_eq m a p) refl

move-failed :
    (a b m : Text) (o : Option (List ℕ)) (w : World)
    → is_ok (move a b o w).0 ≡ false
    → lookup m (move a b o w).1.files ≡ lookup m w.files
move-failed a b m none w e = refl
move-failed a b m (some c) w e = absurd cc

pub sample_disk-IsDisk : IsDisk sample_disk content
sample_disk-IsDisk = record {
  exists-content = λ n w e. exists-content (lookup n w.files) e;
  open_file-content = λ n m w. refl;
  sync_all-content = λ n m w. refl;
  sync_dir-content = λ m w. refl;
  open_write-content = λ n m w. refl;
  set_times-content = λ n m w. refl;
  rename-target = λ a b w e. move-target a b (lookup a w.files) w e;
  rename-other = λ a b m w p q. move-other a b m (lookup a w.files) w p q;
  rename-failed = λ a b m w e. move-failed a b m (lookup a w.files) w e;
}

-- The slots are none of the disk's business.
move-cells :
    (a b : Text) (o : Option (List ℕ)) (w : World) (j : ℕ) → cell j (move a b o w).1 ≡ cell j w
move-cells a b none w j = refl
move-cells a b (some c) w j = refl

load-files :
    (id : ℕ) (o : Option (List ℕ)) (w : World) (m : Text) → content m (load id o w).1 ≡ content m w
load-files id none w m = refl
load-files id (some []) w m = refl
load-files id (some (k ∷ ks)) w m = refl

load-loads :
    (id : ℕ) (o : Option (List ℕ)) (k : ℕ) (w : World)
    → o ≡ some (encode k)
    → cell id (load id o w).1 ≡ k
load-loads id none k w e = absurd cc
load-loads id (some []) k w e = absurd cc
load-loads id (some (x ∷ xs)) k w e = let p : x ≡ k = cc in replace_same w.cells id x ∙ p

load-other :
    (id j : ℕ) (o : Option (List ℕ)) (w : World)
    → nat_eq id j ≡ false
    → cell j (load id o w).1 ≡ cell j w
load-other id j none w n = refl
load-other id j (some []) w n = refl
load-other id j (some (x ∷ xs)) w n = replace_other w.cells id j x n

cell-Unseen : (j : ℕ) (name : Text) → Unseen sample_disk (cell j) name
cell-Unseen j name = record {
  open_file = λ w. refl;
  sync_all = λ w. refl;
  rename = λ w. move-cells _ _ (lookup _ w.files) w j;
  rename_sidecar = λ w. move-cells _ _ (lookup _ w.files) w j;
  sync_dir = λ w. refl;
  open_write = λ w. refl;
  set_times = λ w. refl;
}

insert_same : (n : Text) (c : List ℕ) (d : Dict Text (List ℕ)) → lookup n (insert n c d) ≡ some c
insert_same n c d = lookup-insert n n c d ∙ rw ((text_eq_iff n n).1 refl) refl

insert_other :
    (m n : Text) (c : List ℕ) (d : Dict Text (List ℕ))
    → m ≢ n
    → lookup m (insert n c d) ≡ lookup m d
insert_other m n c d p = lookup-insert n m c d ∙ rw (ne-text_eq m n p) refl

pub sample_backend-IsServer : IsServer sample_disk sample_backend content cell encode
sample_backend-IsServer = record {
  slots-content = λ m w. refl;
  slots-kv = λ j w. refl;
  save_slot-written = λ id n w e. insert_same n (encode (cell id w)) w.files;
  save_slot-other = λ id n m w p q. insert_other m n (encode (cell id w)) w.files p;
  save_slot-kv = λ id j n w. refl;
  restore_slot-loaded = λ id n k w e f. load-loads id (lookup n w.files) k w f;
  restore_slot-other = λ id j n w d. load-other id j (lookup n w.files) w d;
  restore_slot-content = λ id n m w. load-files id (lookup n w.files) w m;
  files-kv = cell-Unseen;
}

generate-content : (o : Option ℕ) (w : World) (m : Text) → content m (generate o w) ≡ content m w
generate-content none w m = refl
generate-content (some id) w m = refl

pub chat-content :
    (v : Value) (w : World) (m : Text) → content m (sample_backend.chat v w).1 ≡ content m w
chat-content v w m = generate-content (slot_in (J.get v (codes "id_slot"))) w m

generate-other :
    (o : Option Value) (id j : ℕ) (w : World)
    → (o ≡ none) ⊎ (o ≡ some (number id))
    → nat_eq id j ≡ false
    → cell j (generate (slot_in o) w) ≡ cell j w
generate-other o id j w (inl e) n = ap (λ x. cell j (generate (slot_in x) w)) e
generate-other o id j w (inr e) n =
    ap (λ x. cell j (generate (slot_in x) w)) e ∙ replace_other w.cells id j (w.cells id + 10) n

steered :
    (parsed : Value) (id : ℕ)
    → (J.get (J.set parsed (codes "id_slot") (number id)) (codes "id_slot") ≡ none)
      ⊎ (J.get (J.set parsed (codes "id_slot") (number id)) (codes "id_slot") ≡ some (number id))
steered null id = inl refl
steered (boolean b) id = inl refl
steered (number n) id = inl refl
steered (string s) id = inl refl
steered (array vs) id = inl refl
steered (object fs) id =
    inr (
      sample_json-IsLawful.get-set (object fs) (number id) (codes "id_slot") (codes "id_slot") refl)

pub chat-other :
    (parsed : Value) (id j : ℕ) (w : World)
    → nat_eq id j ≡ false
    → cell j (sample_backend.chat (J.set parsed (codes "id_slot") (J.number id)) w).1 ≡ cell j w
chat-other parsed id j w n = generate-other _ id j w (steered parsed id) n
