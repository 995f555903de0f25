-- ===== src/Key.antt =====
-- Session keys and blob names: `hex`, `sanitize`, `session_key`, `blob_name` of src/lib.rs.
-- Header values and texts are lists of code points. `HeaderMap` is a function from a name to the
-- value as `to_str` gives it, SHA-256 a function on byte lists.
pub mod Sanitize
pub mod Session
pub mod Blob
mod Examples
use mathlib.Core.Option
use o_llm.Common.{
  ℕ, zero, suc, ◌+◌, ◌-◌, ◌/◌, ◌%◌, Bool, true, false, ◌&&◌, ◌||◌, Option, none, some, List, [],
  ◌∷◌, ◌++◌, map, ltb, leb, nat_eq, if◌then◌else◌, length, take, filter, flat_map,
}
use o_llm.Common.Text.{Text, codes, text_eq}
use o_llm.Json.{Json}

-- One digit of `format!("{x:02x}")`, and both digits of each byte.
unfoldable pub hex_digit : ℕ → ℕ
hex_digit d = if ltb d 10 then b'0' + d else b'a' + (d - 10)

unfoldable pub hex : List ℕ → Text
unfolding hex_digit
hex [] = []
hex (x ∷ b) = hex_digit (x / 16) ∷ hex_digit (x % 16) ∷ hex b

-- `&s[..n]`, which panics (`none`) if the text is shorter.
unfoldable pub slice_to : ℕ → Text → Option Text
slice_to n s = if leb n (length s) then some (take n s) else none

-- `char::is_ascii_alphanumeric`
abbrev pub is_ascii_alphanumeric : ℕ → Bool
is_ascii_alphanumeric c =
    (leb b'0' c && leb c b'9') || (leb b'A' c && leb c b'Z') || (leb b'a' c && leb c b'z')

abbrev pub is_kept : ℕ → Bool
is_kept c = is_ascii_alphanumeric c || nat_eq c b'.' || nat_eq c b'_' || nat_eq c b'-'

-- The closure that `sanitize` maps over the characters.
unfoldable pub replace_char : ℕ → ℕ
replace_char c = if is_kept c then c else b'-'

-- `out.contains("..")`
unfoldable pub contains_dots : Text → Bool
contains_dots [] = false
contains_dots (x ∷ []) = false
contains_dots (x ∷ y ∷ s) = (nat_eq x b'.' && nat_eq y b'.') || contains_dots (y ∷ s)

-- `out.replace("..", ".")`: from the left, pairs that do not overlap.
unfoldable pub replace_dots : Text → Text
replace_dots [] = []
replace_dots (x ∷ []) = x ∷ []
replace_dots (x ∷ y ∷ s) = elim (nat_eq x b'.' && nat_eq y b'.') [
  | true ↦ b'.' ∷ replace_dots s
  | false ↦ x ∷ replace_dots (y ∷ s)
]

-- `while out.contains("..") { out = out.replace("..", ".") }`, with fuel.
unfoldable pub collapse_dots : ℕ → Text → Text
unfolding contains_dots replace_dots
collapse_dots zero out = out
collapse_dots (suc fuel) out = elim (contains_dots out) [
  | true ↦ collapse_dots fuel (replace_dots out)
  | false ↦ out
]

-- `truncate(96)`, and the name of an empty result.
abbrev pub max_len : ℕ
max_len = 96

abbrev pub or_session : Text → Text
or_session [] = codes "session"
or_session (c ∷ s) = c ∷ s

-- The text after the map holds ASCII only, so `truncate` counts characters; as much fuel as
-- there are characters is enough for the loop.
unfoldable pub sanitize : Text → Text
unfolding collapse_dots replace_char
sanitize s =
    let out = map replace_char s in or_session (take max_len (collapse_dots (length out) out))

module _ {V : Type 0} (J : Json V) where
  open J use {get, as_array, as_str, to_vec}

  -- `m.get("role").and_then(|r| r.as_str()) == Some("system")`
  unfoldable pub is_system : V → Bool
  is_system m = elim (get m (codes "role")) [
    | none ↦ false
    | some r ↦ elim (as_str r) [ none ↦ false | some t ↦ text_eq t (codes "system") ]
  ]

  -- `body.get("messages").and_then(|m| m.as_array())`
  unfoldable pub messages_of : V → Option (List V)
  messages_of body = elim (get body (codes "messages")) [ none ↦ none | some m ↦ as_array m ]

  -- What the hash reads: each system message, then a zero byte.
  unfoldable pub digest_input : List V → List ℕ
  digest_input msgs = flat_map (λ m. to_vec m ++ 0 ∷ []) (filter is_system msgs)

  -- Nothing is hashed where there is no array of messages.
  abbrev pub hash_input : Option (List V) → List ℕ
  hash_input none = []
  hash_input (some msgs) = digest_input msgs

  -- Without a usable header, the hash of the system messages. `none` is a panic of the slice.
  unfoldable pub fallback_key : (List ℕ → List ℕ) → V → Option Text
  fallback_key sha256 body =
      Option.map (λ h. codes "conv-" ++ h)
        (slice_to 16 (hex (sha256 (hash_input (messages_of body)))))

  unfoldable pub session_key : (List ℕ → List ℕ) → (Text → Option Text) → V → Text → Option Text
  session_key sha256 headers body header_name = elim (headers header_name) [
    | none ↦ fallback_key sha256 body
    | some v ↦ elim v [
      | [] ↦ fallback_key sha256 body
      | c ∷ cs ↦ some (codes "hdr-" ++ sanitize (c ∷ cs))
    ]
  ]

-- `format!("{}__{}.bin", session, self.backend_sig)`
unfoldable pub blob_name : Text → Text → Text
blob_name session backend_sig = session ++ (codes "__" ++ (backend_sig ++ codes ".bin"))

module _ {V : Type 0} (J : Json V) where
  open J use {get, to_vec}

  -- The entries of `/props` that go into the compatibility signature, in this order.
  abbrev pub compat_keys : List Text
  compat_keys =
      codes "model_path"
      ∷ codes "total_slots"
      ∷ codes "n_ctx"
      ∷ codes "chat_template"
      ∷ codes "add_bos_token"
      ∷ codes "bos_token"
      ∷ []

  abbrev pub compat_entry : V → Text → List ℕ
  compat_entry props k = elim (get props k) [ none ↦ [] | some v ↦ to_vec v ]

  abbrev pub compat_input : Option V → List ℕ
  compat_input none = []
  compat_input (some props) = flat_map (compat_entry props) compat_keys

  -- The signature that `serve` computes from `backend.props()`; `none` is a panic of the slice.
  unfoldable pub backend_signature : (List ℕ → List ℕ) → Option V → Option Text
  backend_signature sha256 props = slice_to 12 (hex (sha256 (compat_input props)))
