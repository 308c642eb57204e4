-- ===== src/Value/Array/Refines.antt =====
-- Whatever its storage, an array is a list of values: each operation is that of the list.
use polyloft_bvm.Prelude.{
  ℕ, zero, suc, ◌≤◌, ◌<◌, ◌≡◌, refl, sym, ◌∙◌, Bool, true, false, ◌&&◌, List, [], ◌∷◌, ◌++◌, Option,
  none, some, map, length, length-map, get_elem?, set, map-set, ltb, ltb→lt, if◌then◌else◌, arith,
  if_case,
}
use mathlib.Core.Option
use mathlib.Core.List.{map-append}
use polyloft_bvm.Value.{
  Float64, Value, int_value, float_value, bool_value, is_number, is_int, is_bool,
}
use polyloft_bvm.Value.Array.{
  ArrayKind, arr_any, arr_int, arr_float, arr_bool, Array, write, len, at, materialize, values,
  set_elem, set_at, append_elem, append,
}

get_elem?-map {ℓ κ} :
    {A : Type ℓ} {B : Type κ} (f : A → B) (xs : List A) (i : ℕ)
    → get_elem? (map f xs) i ≡ Option.map f (get_elem? xs i)
get_elem?-map f [] i = refl
get_elem?-map f (x ∷ xs) zero = refl
get_elem?-map f (x ∷ xs) (suc i) = get_elem?-map f xs i

-- Other storage than that of the kind is empty.
abbrev pub IsDense : {F O : Type 0} → ArrayKind → Array F O → Type 0
IsDense arr_any a = (a.ints ≡ []) × (a.floats ≡ []) × (a.bools ≡ [])
IsDense arr_int a = (a.elems ≡ []) × (a.floats ≡ []) × (a.bools ≡ [])
IsDense arr_float a = (a.elems ≡ []) × (a.ints ≡ []) × (a.bools ≡ [])
IsDense arr_bool a = (a.elems ≡ []) × (a.ints ≡ []) × (a.floats ≡ [])

abbrev pub IsArray : {F O : Type 0} → Array F O → Type 0
IsArray a = IsDense a.a_kind a

module _ (fl : Float64) {O : Type 0} where
  -- The list that an array stands for.
  abbrev contents_of : ArrayKind → Array fl.F O → List (Value fl.F O)
  contents_of arr_any a = a.elems
  contents_of arr_int a = map (int_value fl) a.ints
  contents_of arr_float a = map (float_value fl) a.floats
  contents_of arr_bool a = map (bool_value fl) a.bools

  unfoldable pub contents : Array fl.F O → List (Value fl.F O)
  contents a = contents_of a.a_kind a

  -- What is read back of `v` from dense storage of a kind.
  unfoldable pub stored : ArrayKind → Value fl.F O → Value fl.F O
  stored arr_any v = v
  stored arr_int v = if is_number v && is_int v then int_value fl v.int else v
  stored arr_float v = if is_number v then float_value fl v.num else v
  stored arr_bool v = if is_bool v then bool_value fl v.bool else v

  abbrev array : ArrayKind → List (Value fl.F O) → List ℕ → List fl.F → List Bool → Array fl.F O
  array k es ns fs bs = record { elems = es; ints = ns; floats = fs; bools = bs; a_kind = k }

  len_kind :
      (k : ArrayKind) (es : List (Value fl.F O)) (ns : List ℕ) (fs : List fl.F) (bs : List Bool)
      → len fl (array k es ns fs bs) ≡ length (contents (array k es ns fs bs))
  unfolding len contents
  len_kind arr_any es ns fs bs = refl
  len_kind arr_int es ns fs bs = sym (length-map (int_value fl) ns)
  len_kind arr_float es ns fs bs = sym (length-map (float_value fl) fs)
  len_kind arr_bool es ns fs bs = sym (length-map (bool_value fl) bs)

  at_kind :
      (k : ArrayKind) (es : List (Value fl.F O)) (ns : List ℕ) (fs : List fl.F) (bs : List Bool)
      (i : ℕ)
      → at fl (array k es ns fs bs) i ≡ get_elem? (contents (array k es ns fs bs)) i
  unfolding at contents
  at_kind arr_any es ns fs bs i = refl
  at_kind arr_int es ns fs bs i = sym (get_elem?-map (int_value fl) ns i)
  at_kind arr_float es ns fs bs i = sym (get_elem?-map (float_value fl) fs i)
  at_kind arr_bool es ns fs bs i = sym (get_elem?-map (bool_value fl) bs i)

  -- `Len` is the length of the list that the array stands for, and `At` reads the list's element; an
  -- index out of range panics.
  pub len-at :
      (a : Array fl.F O) (i : ℕ)
      → (len fl a ≡ length (contents a)) × (at fl a i ≡ get_elem? (contents a) i)
  len-at a i = (
    len_kind a.a_kind a.elems a.ints a.floats a.bools,
    at_kind a.a_kind a.elems a.ints a.floats a.bools i,
  )

  -- A write at `i` that reads back as `w`: it replaces one element in range, and panics out of range.
  abbrev pub Writes : List (Value fl.F O) → ℕ → Value fl.F O → Option (Array fl.F O) → Type 0
  Writes before i w none = length before ≤ i
  Writes before i w (some b) = (i < length before) × (contents b ≡ set before i w) × IsArray b

  set_elem-Writes :
      (es : List (Value fl.F O)) (i : ℕ) (v : Value fl.F O)
      → Writes es i v (set_elem fl (array arr_any es [] [] []) i v)
  unfolding set_elem contents
  set_elem-Writes es i v =
      if_case
        (λ o.
          Writes es i v (Option.map (λ zs. record (array arr_any es [] [] []) { elems = zs }) o))
        (ltb i (length es)) (λ lt. (ltb→lt i (length es) lt, refl, (refl, refl, refl)))
        (λ ge. ground arith)

  -- A write into dense storage that `f` reads.
  write-Writes :
      {A : Type 0} (f : A → Value fl.F O) (put : List A → Array fl.F O) (xs : List A) (i : ℕ)
      (x : A)
      → ((zs : List A) → contents (put zs) ≡ map f zs)
      → ((zs : List A) → IsArray (put zs))
      → Writes (map f xs) i (f x) (Option.map put (write xs i x))
  write-Writes f put xs i x c h =
      if_case (λ o. Writes (map f xs) i (f x) (Option.map put o)) (ltb i (length xs))
        (λ lt. (
          omega (arith, length-map f xs, ltb→lt i (length xs) lt),
          c (set xs i x) ∙ map-set f xs i x,
          h (set xs i x),
        ))
        (λ ge. let out : length xs ≤ i = ground arith in omega (arith, length-map f xs, out))

  -- The two branches of `SetAt` on dense storage that `f` reads.
  set_dense :
      {A : Type 0} (f : A → Value fl.F O) (put : List A → Array fl.F O) (xs : List A) (i : ℕ)
      (x : A) (v : Value fl.F O) (same : Bool)
      → ((zs : List A) → contents (put zs) ≡ map f zs)
      → ((zs : List A) → IsArray (put zs))
      → Writes (map f xs) i (if same then f x else v) (
          if same
          then Option.map put (write xs i x)
          else set_elem fl (array arr_any (map f xs) [] [] []) i v)
  set_dense f put xs i x v true c h = write-Writes f put xs i x c h
  set_dense f put xs i x v false c h = set_elem-Writes (map f xs) i v

  set_kind :
      (k : ArrayKind) (es : List (Value fl.F O)) (ns : List ℕ) (fs : List fl.F) (bs : List Bool)
      (i : ℕ) (v : Value fl.F O)
      → IsArray (array k es ns fs bs)
      → Writes (contents (array k es ns fs bs)) i (stored k v) (set_at fl (array k es ns fs bs) i v)
  unfolding set_at contents stored materialize
  set_kind arr_any es ns fs bs i v h = rw (h.0, h.1, h.2) (set_elem-Writes es i v)
  set_kind arr_int es ns fs bs i v h =
      rw (h.0, h.1, h.2)
        (set_dense (int_value fl) (λ zs. array arr_int [] zs [] []) ns i v.int v
          (is_number v && is_int v) (λ zs. refl) (λ zs. (refl, refl, refl)))
  set_kind arr_float es ns fs bs i v h =
      rw (h.0, h.1, h.2)
        (set_dense (float_value fl) (λ zs. array arr_float [] [] zs []) fs i v.num v (is_number v)
          (λ zs. refl) (λ zs. (refl, refl, refl)))
  set_kind arr_bool es ns fs bs i v h =
      rw (h.0, h.1, h.2)
        (set_dense (bool_value fl) (λ zs. array arr_bool [] [] [] zs) bs i v.bool v (is_bool v)
          (λ zs. refl) (λ zs. (refl, refl, refl)))

  -- `SetAt` panics out of range; in range it replaces one element of the list, by what the storage
  -- keeps of `v`, whether or not it promotes the storage.
  pub set_at-Writes :
      (a : Array fl.F O) (i : ℕ) (v : Value fl.F O)
      → IsArray a
      → Writes (contents a) i (stored a.a_kind v) (set_at fl a i v)
  set_at-Writes a i v h = set_kind a.a_kind a.elems a.ints a.floats a.bools i v h

  Appends : List (Value fl.F O) → Value fl.F O → Array fl.F O → Type 0
  Appends before w b = (contents b ≡ before ++ w ∷ []) × IsArray b

  append_dense :
      {A : Type 0} (f : A → Value fl.F O) (put : List A → Array fl.F O) (xs : List A) (x : A)
      (v : Value fl.F O) (same : Bool)
      → ((zs : List A) → contents (put zs) ≡ map f zs)
      → ((zs : List A) → IsArray (put zs))
      → Appends (map f xs) (if same then f x else v) (
          if same then put (xs ++ x ∷ []) else append_elem fl (array arr_any (map f xs) [] [] []) v)
  unfolding Appends append_elem contents
  append_dense f put xs x v true c h =
      (c (xs ++ x ∷ []) ∙ map-append f xs (x ∷ []), h (xs ++ x ∷ []))
  append_dense f put xs x v false c h = (refl, (refl, refl, refl))

  append_kind :
      (k : ArrayKind) (es : List (Value fl.F O)) (ns : List ℕ) (fs : List fl.F) (bs : List Bool)
      (v : Value fl.F O)
      → IsArray (array k es ns fs bs)
      → Appends (contents (array k es ns fs bs)) (stored k v) (append fl (array k es ns fs bs) v)
  unfolding Appends append append_elem contents stored materialize
  append_kind arr_any es ns fs bs v h = (refl, h)
  append_kind arr_int es ns fs bs v h =
      rw (h.0, h.1, h.2)
        (append_dense (int_value fl) (λ zs. array arr_int [] zs [] []) ns v.int v
          (is_number v && is_int v) (λ zs. refl) (λ zs. (refl, refl, refl)))
  append_kind arr_float es ns fs bs v h =
      rw (h.0, h.1, h.2)
        (append_dense (float_value fl) (λ zs. array arr_float [] [] zs []) fs v.num v (is_number v)
          (λ zs. refl) (λ zs. (refl, refl, refl)))
  append_kind arr_bool es ns fs bs v h =
      rw (h.0, h.1, h.2)
        (append_dense (bool_value fl) (λ zs. array arr_bool [] [] [] zs) bs v.bool v (is_bool v)
          (λ zs. refl) (λ zs. (refl, refl, refl)))

  -- `Append` adds one element to the end of the list, what the storage keeps of `v`.
  pub append-Appends :
      (a : Array fl.F O) (v : Value fl.F O)
      → IsArray a
      → (contents (append fl a v) ≡ contents a ++ stored a.a_kind v ∷ []) × IsArray (append fl a v)
  unfolding Appends
  append-Appends a v h = append_kind a.a_kind a.elems a.ints a.floats a.bools v h

  -- `materialize` keeps the list.
  values_kind :
      (k : ArrayKind) (es : List (Value fl.F O)) (ns : List ℕ) (fs : List fl.F) (bs : List Bool)
      → IsArray (array k es ns fs bs)
      → ((values fl (array k es ns fs bs)).0 ≡ contents (array k es ns fs bs))
        × (contents ((values fl (array k es ns fs bs)).1) ≡ contents (array k es ns fs bs))
        × IsArray ((values fl (array k es ns fs bs)).1)
  unfolding values materialize contents
  values_kind arr_any es ns fs bs h = (refl, refl, h)
  values_kind arr_int es ns fs bs h = (refl, refl, (refl, h.1, h.2))
  values_kind arr_float es ns fs bs h = (refl, refl, (h.1, refl, h.2))
  values_kind arr_bool es ns fs bs h = (refl, refl, (h.1, h.2, refl))

  -- `Values` returns the list, and leaves an array of the same list in `[]Value` storage.
  pub values_lem :
      (a : Array fl.F O)
      → IsArray a
      → ((values fl a).0 ≡ contents a)
        × (contents ((values fl a).1) ≡ contents a)
        × IsArray ((values fl a).1)
  values_lem a h = values_kind a.a_kind a.elems a.ints a.floats a.bools h
