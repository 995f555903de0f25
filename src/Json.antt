-- ===== src/Json.antt =====
-- The part of `serde_json::Value` that the program uses, as an interface over an unknown type of
-- values, and what the program relies on of it (src/lib.rs, src/seed.rs, src/backend.rs).
pub mod Sample
use o_llm.Common.{ℕ, ◌<◌, ◌^◌, ◌≡◌, ◌↔◌, Bool, true, Option, some, List, if◌then◌else◌}
use o_llm.Common.Text.{Text, text_eq}

pub record Json (V : Type 0) : Type 0 where
  -- `Value::get` with a text index, and the typed readings of a value.
  pub get : V → Text → Option V
  pub as_array : V → Option (List V)
  pub as_str : V → Option Text
  pub as_bool : V → Option Bool
  pub as_u64 : V → Option ℕ
  -- `serde_json::to_vec(v).unwrap_or_default()`
  pub to_vec : V → List ℕ
  -- The text that `Display` prints.
  pub display : V → Text
  -- `Value::Null`, `Value::Array`, a text and a number made by `json!`.
  pub null : V
  pub array : List V → V
  pub string : Text → V
  pub number : ℕ → V
  pub boolean : Bool → V
  pub empty_object : V
  -- `v.as_object_mut()` followed by `insert`, which leaves a value that is no object alone.
  pub set : V → Text → V → V
  pub is_object : V → Bool
  -- `==`
  pub eq : V → V → Bool

-- The documented behaviour of these operations.
pub record IsLawful {V : Type 0} (J : Json V) : Type 0 where
  pub as_u64-number : (n : ℕ) → n < 2 ^ 64 → J.as_u64 (J.number n) ≡ some n
  pub get-set :
      (v w : V) (k j : Text)
      → J.is_object v ≡ true
      → J.get (J.set v k w) j ≡ (if text_eq k j then some w else J.get v j)
  pub is_object-empty_object : J.is_object J.empty_object ≡ true
  pub is_object-set : (v w : V) (k : Text) → J.is_object (J.set v k w) ≡ J.is_object v
