-- ===== src/Quota/Names.antt =====
-- How names of blobs, sidecars and leftovers are told apart by their suffixes.
use mathlib.Core.List.{append_assoc}
use o_llm.Common.{
  ◌≡◌, refl, sym, ap, subst, ◌∙◌, ◌≢◌, inl, inr, true, false, some, List, [], ◌∷◌, ◌++◌, map, arith,
  In, Distinct, In-map, find-some, Bool-cases,
}
use o_llm.Common.Text.{
  Text, codes, text_eq, text_eq_iff, ends_with, ends_with_inv, ends_with-append,
  strip_suffix-append, last-ne,
}
use o_llm.Quota.{CacheEntry, dot_bin, dot_ckpt, find_entry, has_name, is_junk, is_blob}

abbrev pub names_of : List CacheEntry → List Text
names_of = map (λ e. e.name)

-- A directory: no two entries have one name.
abbrev pub HasDistinctNames : List CacheEntry → Type 0
HasDistinctNames entries = Distinct (names_of entries)

-- No name ends in both suffixes.
ckpt-ne-bin : (a b : Text) → a ++ dot_ckpt ≢ b ++ dot_bin
ckpt-ne-bin a b e =
    last-ne (a ++ codes ".ckp") (b ++ codes ".bi") {x = b't'} {y = b'n'} (omega arith) (
      append_assoc a (codes ".ckp") (codes "t")
      ∙ (e ∙ sym (append_assoc b (codes ".bi") (codes "n"))))

pub ends_with-bin_of_ckpt : (a : Text) → ends_with (a ++ dot_ckpt) dot_bin ≡ false
ends_with-bin_of_ckpt a = elim (Bool-cases (ends_with (a ++ dot_ckpt) dot_bin)) [
  | inl h ↦ let (b, e) = ends_with_inv _ _ h in absurd (ckpt-ne-bin a b e)
  | inr h ↦ h
]

pub has_name_of_In :
    (entries : List CacheEntry) (e : CacheEntry) → In e entries → has_name entries e.name ≡ true
unfolding has_name
has_name_of_In [] e m = elim m [ ]
has_name_of_In (x ∷ entries) e m =
    ground (arith, text_eq_iff x.name e.name, has_name_of_In entries e)

pub has_name_inv :
    (entries : List CacheEntry) (n : Text)
    → has_name entries n ≡ true
    → (e : CacheEntry) × In e entries × (e.name ≡ n)
unfolding has_name
has_name_inv [] n h = cc
has_name_inv (x ∷ entries) n h = elim (Bool-cases (text_eq x.name n)) [
  | inl e ↦ (x, inl refl, (text_eq_iff x.name n).0 e)
  | inr e ↦ let (y, m, f) = has_name_inv entries n (ground arith) in (y, inr m, f)
]

-- In a directory an entry is found by its name.
pub find_entry_of_In :
    (entries : List CacheEntry) (e : CacheEntry)
    → HasDistinctNames entries
    → In e entries
    → find_entry entries e.name ≡ some e
find_entry_of_In [] e d m = elim m [ ]
find_entry_of_In (x ∷ entries) e d (inl h) = ground (arith, text_eq_iff x.name e.name)
find_entry_of_In (x ∷ entries) e d (inr m) = elim (Bool-cases (text_eq x.name e.name)) [
  | inl h ↦ absurd (
      d.0 (
        subst (λ n. In n (names_of entries)) (sym ((text_eq_iff x.name e.name).0 h))
          (In-map (λ y. y.name) e entries m)))
  | inr h ↦ rw h (find_entry_of_In entries e d.1 m)
]

pub eq_of_name :
    (entries : List CacheEntry) (e f : CacheEntry)
    → HasDistinctNames entries
    → In e entries
    → In f entries
    → e.name ≡ f.name
    → e ≡ f
eq_of_name entries e f d me mf h =
    let p : some e ≡ some f =
      sym (find_entry_of_In entries e d me)
      ∙ (ap (find_entry entries) h ∙ find_entry_of_In entries f d mf) in
    ground arith

pub find_entry-some :
    (entries : List CacheEntry) (n : Text) (e : CacheEntry)
    → find_entry entries n ≡ some e
    → In e entries × (e.name ≡ n)
find_entry-some entries n e h =
    let r = find-some (λ x. text_eq x.name n) e entries h in (r.0, (text_eq_iff e.name n).0 r.1)

-- A blob is no junk, and neither is a sidecar whose base is there.
pub is_junk-blob :
    (entries : List CacheEntry) (e : CacheEntry) → is_blob e ≡ true → is_junk entries e ≡ false
unfolding is_junk
is_junk-blob entries e h = rw h

pub is_junk-sidecar :
    (entries : List CacheEntry) (b s : CacheEntry)
    → In b entries
    → s.name ≡ b.name ++ dot_ckpt
    → is_junk entries s ≡ false
unfolding is_junk
is_junk-sidecar entries b s m h = rw (
  h,
  ends_with-bin_of_ckpt b.name,
  ends_with-append b.name dot_ckpt,
  strip_suffix-append b.name dot_ckpt,
  has_name_of_In entries b m,
)
