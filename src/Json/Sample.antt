-- ===== src/Json/Sample.antt =====
-- A small type of values that meets the interface, and a stand-in for SHA-256: for the tests and
-- to show that the assumptions can be met.

use o_llm.Common.{
  ℕ, zero, suc, ◌+◌, ◌*◌, ◌%◌, ◌<◌, ◌≡◌, refl, ap, Bool, true, false, ◌&&◌, Option, none, some,
  List, [], ◌∷◌, ◌++◌, arith, nat_eq, Bool-cases, inl, inr, if◌then◌else◌, All,
}
use o_llm.Common.Text.{Text, text_eq, text_eq_iff, text_eq_refl}
use o_llm.Json.{Json, IsLawful}
use o_llm.Key.Session.{IsDigest}

mutual
  pub data Value : Type 0 where
    null : Value
    boolean : Bool → Value
    number : ℕ → Value
    string : Text → Value
    array : Items → Value
    object : Fields → Value

  pub data Items : Type 0 where
    nil : Items
    cons : Value → Items → Items

  pub data Fields : Type 0 where
    end : Fields
    field : Text → Value → Fields → Fields

abbrev pub to_items : List Value → Items
to_items [] = nil
to_items (v ∷ vs) = cons v (to_items vs)

abbrev pub of_items : Items → List Value
of_items nil = []
of_items (cons v vs) = v ∷ of_items vs

of_items-to_items : (vs : List Value) → of_items (to_items vs) ≡ vs
of_items-to_items [] = refl
of_items-to_items (v ∷ vs) = ap (◌∷◌ v) (of_items-to_items vs)

abbrev get_field : Fields → Text → Option Value
get_field end k = none
get_field (field j v fs) k = if text_eq j k then some v else get_field fs k

abbrev set_field : Fields → Text → Value → Fields
set_field end k v = field k v end
set_field (field j w fs) k v = if text_eq j k then field j v fs else field j w (set_field fs k v)

abbrev bit : Bool → ℕ
bit true = 1
bit false = 0

abbrev bool_eq : Bool → Bool → Bool
bool_eq true b = b
bool_eq false true = false
bool_eq false false = true

abbrev mutual
  bytes : Value → List ℕ
  bytes null = 0 ∷ []
  bytes (boolean b) = bit b ∷ []
  bytes (number n) = n ∷ []
  bytes (string s) = s
  bytes (array vs) = b'[' ∷ bytes_items vs
  bytes (object fs) = b'{' ∷ bytes_fields fs

  bytes_items : Items → List ℕ
  bytes_items nil = b']' ∷ []
  bytes_items (cons v vs) = bytes v ++ bytes_items vs

  bytes_fields : Fields → List ℕ
  bytes_fields end = b'}' ∷ []
  bytes_fields (field k v fs) = k ++ (bytes v ++ bytes_fields fs)

abbrev get_in : Value → Text → Option Value
get_in (object fs) k = get_field fs k
get_in _ k = none

abbrev items_in : Value → Option (List Value)
items_in (array vs) = some (of_items vs)
items_in _ = none

abbrev text_in : Value → Option Text
text_in (string s) = some s
text_in _ = none

abbrev bool_in : Value → Option Bool
bool_in (boolean b) = some b
bool_in _ = none

abbrev number_in : Value → Option ℕ
number_in (number n) = some n
number_in _ = none

abbrev set_in : Value → Text → Value → Value
set_in (object fs) k v = object (set_field fs k v)
set_in v k w = v

abbrev is_obj : Value → Bool
is_obj (object fs) = true
is_obj _ = false

abbrev mutual
  value_eq : Value → Value → Bool
  value_eq null null = true
  value_eq (boolean b) (boolean c) = bool_eq b c
  value_eq (number n) (number m) = nat_eq n m
  value_eq (string s) (string t) = text_eq s t
  value_eq (array vs) (array ws) = items_eq vs ws
  value_eq (object fs) (object gs) = fields_eq fs gs
  value_eq _ _ = false

  items_eq : Items → Items → Bool
  items_eq nil nil = true
  items_eq (cons v vs) (cons w ws) = value_eq v w && items_eq vs ws
  items_eq _ _ = false

  fields_eq : Fields → Fields → Bool
  fields_eq end end = true
  fields_eq (field j v fs) (field k w gs) = text_eq j k && (value_eq v w && fields_eq fs gs)
  fields_eq _ _ = false

abbrev pub sample_json : Json Value
sample_json = record {
  get = get_in;
  as_array = items_in;
  as_str = text_in;
  as_bool = bool_in;
  as_u64 = number_in;
  to_vec = bytes;
  display = bytes;
  null = null;
  array = λ vs. array (to_items vs);
  string = string;
  number = number;
  boolean = boolean;
  empty_object = object end;
  set = set_in;
  is_object = is_obj;
  eq = value_eq;
}

get_field-set_field :
    (fs : Fields) (w : Value) (k j : Text)
    → get_field (set_field fs k w) j ≡ (if text_eq k j then some w else get_field fs j)
get_field-set_field end w k j = refl
get_field-set_field (field i v fs) w k j = elim (Bool-cases (text_eq i k)) [
  | inl e ↦ ground (arith, text_eq_iff i k, text_eq_refl i)
  | inr n ↦
      ground
        (arith, get_field-set_field fs w k j, text_eq_iff i k, text_eq_iff i j, text_eq_iff k j)
]

is_obj-set_in : (v w : Value) (k : Text) → is_obj (set_in v k w) ≡ is_obj v
is_obj-set_in null w k = refl
is_obj-set_in (boolean b) w k = refl
is_obj-set_in (number n) w k = refl
is_obj-set_in (string s) w k = refl
is_obj-set_in (array vs) w k = refl
is_obj-set_in (object fs) w k = refl

get_in-set_in :
    (v w : Value) (k j : Text)
    → is_obj v ≡ true
    → get_in (set_in v k w) j ≡ (if text_eq k j then some w else get_in v j)
get_in-set_in (object fs) w k j h = get_field-set_field fs w k j
get_in-set_in null w k j h = absurd cc
get_in-set_in (boolean b) w k j h = absurd cc
get_in-set_in (number n) w k j h = absurd cc
get_in-set_in (string s) w k j h = absurd cc
get_in-set_in (array vs) w k j h = absurd cc

pub sample_json-IsLawful : IsLawful sample_json
sample_json-IsLawful = record {
  as_u64-number = λ n h. refl;
  get-set = get_in-set_in;
  is_object-empty_object = refl;
  is_object-set = is_obj-set_in;
}

-- 32 bytes that depend on the input.
abbrev pub checksum : List ℕ → ℕ
checksum [] = 7
checksum (x ∷ b) = x + 3 * checksum b

abbrev pub repeat : ℕ → ℕ → List ℕ
repeat zero x = []
repeat (suc n) x = x ∷ repeat n x

abbrev pub sample_sha256 : List ℕ → List ℕ
sample_sha256 b = repeat 32 (checksum b % 256)

repeat-All : (n x : ℕ) → x < 256 → All (λ y. y < 256) (repeat n x)
repeat-All zero x h = tt
repeat-All (suc n) x h = (h, repeat-All n x h)

pub sample_sha256-IsDigest : IsDigest sample_sha256
sample_sha256-IsDigest = record {
  width = λ b. refl;
  bytes = λ b. repeat-All 32 (checksum b % 256) (omega arith);
}
