-- ===== src/Backend/Llama/Laws.antt =====
-- What the answers of `LlamaBackend` say about the server's.
use o_llm.Common.{
  ℕ, ◌%◌, ◌^◌, ◌<◌, err-ne-ok, ◌≡◌, refl, sym, ap, subst, ◌∙◌, ◌⊎◌, inl, inr, true, none, some,
  List, [], ◌∷◌, arith, Result, ok, err, In, Option-cases, Result-cases, get_or,
}
use o_llm.Common.Text.{Text, codes}
use o_llm.Json.{Json}
use o_llm.Backend.{SlotState}
use o_llm.Backend.Llama.{
  HttpClient, HttpRequest, HttpResponse, LlamaBackend, Method, request, get_json, get_body,
  post_json, slot_of, slots_of, slots, accept, save_slot, restore_slot, action_path, filename,
  u64_of, bool_of, read_slots,
}

module _ {V : Type 0} (J : Json V) where
  -- The element of the server's array that a reported state was read from.
  abbrev pub ReadFrom : V → SlotState → Type 0
  ReadFrom s st =
      (x : ℕ) × (u64_of J (J.get s (codes "id")) ≡ some x)
      × (st.id ≡ x % 2 ^ 32)
      × (st.is_processing ≡ get_or (bool_of J (J.get s (codes "is_processing"))) true)

  slot_of-ReadFrom : (s : V) (st : SlotState) → slot_of J s ≡ some st → ReadFrom s st
  unfolding slot_of
  slot_of-ReadFrom s st e = elim (Option-cases (u64_of J (J.get s (codes "id")))) [
    | inl n ↦ ground arith
    | inr (x, f) ↦ (x, ground arith, ground arith, ground arith)
  ]

  -- Every reported state was read from an element of the array.
  pub slots_of-ReadFrom :
      (arr : List V) (st : SlotState) → In st (slots_of J arr) → (s : V) × In s arr × ReadFrom s st
  unfolding slots_of
  slots_of-ReadFrom [] st m = elim m [ ]
  slots_of-ReadFrom (s ∷ arr) st m = elim (Option-cases (slot_of J s)) [
    | inl n ↦ later (slots_of-ReadFrom arr st (rw (n, slots_of) at m))
    | inr (t, f) ↦ split t f (slots_of-ReadFrom arr st) (rw (f, slots_of) at m)
  ]
    where
      later : ((v : V) × In v arr × ReadFrom v st) → (v : V) × In v (s ∷ arr) × ReadFrom v st
      later (v, i, r) = (v, inr i, r)

      split :
          (t : SlotState)
          → slot_of J s ≡ some t
          → (In st (slots_of J arr) → (v : V) × In v arr × ReadFrom v st)
          → In st (t ∷ slots_of J arr)
          → (v : V) × In v (s ∷ arr) × ReadFrom v st
      split t f ih (inl e) = (s, inl refl, slot_of-ReadFrom s st (f ∙ ap (λ x. some x) (sym e)))
      split t f ih (inr i) = later (ih i)

  accept-ok :
      (what : Text) (r : Result (ℕ × V) Text) (v : V)
      → accept J what r ≡ ok v
      → (code : ℕ) × (r ≡ ok (code, v)) × (code < 300)
  unfolding accept
  accept-ok what (err e) v h = ground arith
  accept-ok what (ok (code, w)) v h = (code, ground arith, ground arith)

module _ {W V : Type 0} (J : Json V) (send : HttpClient W V) (be : LlamaBackend) where
  -- The server answered the request, with a status below 300.
  abbrev pub Accepted : HttpRequest V → W → Type 0
  Accepted q w = (r : HttpResponse V) × ((send q w).0 ≡ ok r) × (r.status < 300)

  post_json-ok :
      (path : Text) (body : V) (w : W) (code : ℕ) (v : V)
      → (post_json J send be path body w).0 ≡ ok (code, v)
      → (r : HttpResponse V) × ((send (request J send be Method.post path (some body)) w).0 ≡ ok r)
        × (r.status ≡ code)
  unfolding post_json
  post_json-ok path body w code v h =
      by_answer (Result-cases (send (request J send be Method.post path (some body)) w).0)
    where
      by_answer :
          ((r : HttpResponse V) × ((send (request J send be Method.post path (some body)) w).0
                ≡ ok r))
            ⊎ ((e : Text) × ((send (request J send be Method.post path (some body)) w).0 ≡ err e))
          → (r : HttpResponse V) × ((send (request J send be Method.post path (some body)) w).0
              ≡ ok r)
            × (r.status ≡ code)
      by_answer (inl (r, e)) = (r, e, ground arith)
      by_answer (inr (t, e)) = ground arith

  -- A `POST` whose answer is accepted was answered by the server with a status below 300.
  accept-Accepted :
      (what path : Text) (body : V) (w : W) (v : V)
      → accept J what (post_json J send be path body w).0 ≡ ok v
      → Accepted (request J send be Method.post path (some body)) w
  accept-Accepted what path body w v h =
      let (code, e, l) = accept-ok J what (post_json J send be path body w).0 v h in
      let (r, f, g) = post_json-ok path body w code v e in (r, f, subst (λ n. n < 300) (sym g) l)

  -- If `save_slot` returns a value then the server was sent `POST /slots/{id}?action=save` with
  -- the blob's name and answered it with a status below 300.
  pub save_slot-Accepted :
      (id : ℕ) (name : Text) (w : W) (v : V)
      → (save_slot J send be id name w).0 ≡ ok v
      → Accepted
          (request J send be Method.post
            (action_path J send be id (codes "save"))
            (some (filename J name)))
          w
  unfolding save_slot
  save_slot-Accepted id name w v h =
      accept-Accepted (codes "save") (action_path J send be id (codes "save")) (filename J name) w v
        h

  -- If `restore_slot` returns a value then the server was sent `POST /slots/{id}?action=restore`
  -- with the blob's name and answered it with a status below 300.
  pub restore_slot-Accepted :
      (id : ℕ) (name : Text) (w : W) (v : V)
      → (restore_slot J send be id name w).0 ≡ ok v
      → Accepted
          (request J send be Method.post
            (action_path J send be id (codes "restore"))
            (some (filename J name)))
          w
  unfolding restore_slot
  restore_slot-Accepted id name w v h =
      accept-Accepted (codes "restore") (action_path J send be id (codes "restore"))
        (filename J name) w v h

  -- What an accepted answer of `GET /slots` was made from.
  read_slots-ok :
      (a : Result (HttpResponse V) Text × W) (sts : List SlotState)
      → read_slots J (get_body J send be (codes "/slots") a).0 ≡ ok sts
      → (r : HttpResponse V) × (v : V) × (arr : List V) × (a.0 ≡ ok r)
        × (r.json ≡ ok v)
        × (J.as_array v ≡ some arr)
        × (slots_of J arr ≡ sts)
  unfolding get_body
  read_slots-ok (err e, w) sts h = absurd (err-ne-ok h)
  read_slots-ok (ok r, w) sts h = elim (Result-cases r.json) [
    | inl (v, e) ↦ elim (Option-cases (J.as_array v)) [
      | inl n ↦ absurd (err-ne-ok (rw (e, get_body, read_slots, n) at h))
      | inr (arr, f) ↦ (r, v, arr, refl, e, f, ground arith)
    ]
    | inr (t, e) ↦ absurd (err-ne-ok (rw (e, get_body, read_slots) at h))
  ]

  -- `slots` reports only what the server said: if it returns the states then the server answered
  -- `GET /slots` with an array, and each state was read from an element of it, its id being the
  -- element's up to 32 bits and the slot idle only if the element says so.
  pub slots-ReadFrom :
      (w : W) (sts : List SlotState) (st : SlotState)
      → (slots J send be w).0 ≡ ok sts
      → In st sts
      → (r : HttpResponse V) × (v : V) × (arr : List V) × (s : V) × ((send
            (request J send be Method.get (codes "/slots") none)
            w).0
          ≡ ok r)
        × (r.json ≡ ok v)
        × (J.as_array v ≡ some arr)
        × In s arr
        × ReadFrom J s st
  unfolding slots get_json
  slots-ReadFrom w sts st h i =
      let (r, v, arr, a, b, c, d) =
        read_slots-ok (send (request J send be Method.get (codes "/slots") none) w) sts h in
      let (s, m, f) = slots_of-ReadFrom J arr st (subst (λ l. In st l) (sym d) i) in
      (r, v, arr, s, a, b, c, m, f)
