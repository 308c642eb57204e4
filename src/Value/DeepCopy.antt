-- ===== src/Value/DeepCopy.antt =====
-- internal/value/deepcopy.go: `DeepCopy` on a heap of objects, which may be cyclic. The heap maps
-- addresses below `size` to objects; `visited` is the map of the source, the latest entry first.
-- Pointers of a Go type point to objects of that type, so the casts of the source succeed.
pub mod Visited
pub mod Clones
pub mod Copies
pub mod Ends
use polyloft_bvm.Prelude.{
  ℕ, zero, suc, Bool, List, [], ◌∷◌, Option, none, some, Text, ◌==◌, ◌||◌, true, leb, ltb, length,
  if◌then◌else◌,
}
use polyloft_bvm.Value.{Value, Kind, object, nil_value, Float64}

-- A value, whose object is an address.
abbrev pub Ref : Type 0 → Type 0
Ref F = Value F ℕ

-- The Go type of an object, with what `deepCopyValue` takes over as it is.
pub data Shape : Type 0 where
  tuple array cell sam_bound_method shared : Shape
  dense_array : ℕ → List ℕ → Shape
  table : List Text → Shape
  instance_of : ℕ → Bool → Shape
  closure : ℕ → Shape
  bound_method : Text → ℕ → ℕ → Shape
  bound_static_method : ℕ → Text → ℕ → Shape
  sam_wrapper : Text → Text → Shape
  range : ℕ → ℕ → ℕ → Shape
  -- Current, Started, Index, Length and GetFn, and which of Range, Receiver, Items and Arr are there.
  iterator : ℕ → Bool → ℕ → ℕ → ℕ → Bool → Bool → Bool → Bool → Shape

-- An object, with the values that are copied with it, in the order of the copying: the elements of a
-- tuple or an array, the entries of a map by its keys, the fields of an instance, the value of a cell,
-- the captures of a closure, the receiver, wrapper or callable, or the parts of an iterator.
pub record Object (F : Type 0) : Type 0 where
  pub shape : Shape
  pub slots : List (Ref F)

pub record State (F : Type 0) : Type 0 where
  pub size : ℕ
  pub objects : ℕ → Object F
  pub visited : List (ℕ × ℕ)

-- Whether the copy is registered before what it holds is copied, after that, or never made.
pub data Order : Type 0 where
  first last never : Order

abbrev pub order : Shape → Order
order shared = never
order (bound_method name method owner) = last
order (sam_wrapper interface_name method_name) = last
order sam_bound_method = last
order _ = first

abbrev pub find_copy : ℕ → List (ℕ × ℕ) → Option ℕ
find_copy p [] = none
find_copy p ((k, q) ∷ es) = if k == p then some q else find_copy p es

abbrev pub set_object : {F : Type 0} → ℕ → Object F → (ℕ → Object F) → ℕ → Object F
set_object a o objects b = if a == b then o else objects b

-- The address of a value that has an object.
abbrev pub address : {F : Type 0} → Ref F → Option ℕ
address v = elim v.kind [ object ↦ v.obj | _ ↦ none ]

-- A new clone of `p`, registered in `visited`.
unfoldable pub register : {F : Type 0} → ℕ → Object F → State F → State F
register p o st = record {
  size = suc st.size;
  objects = set_object st.size o st.objects;
  visited = (p, st.size) ∷ st.visited;
}

-- A result, a panic, or no fuel left.
pub data Run {ℓ} (A : Type ℓ) : Type ℓ where
  done : A → Run A
  panic stuck : Run A

infixl 20 ◌>>=◌
abbrev pub ◌>>=◌ {ℓ κ} : {A : Type ℓ} {B : Type κ} → Run A → (A → Run B) → Run B
done a >>= f = f a
panic >>= f = panic
stuck >>= f = stuck

abbrev pub Copier : Type 0 → Type 0
Copier F = Ref F → State F → Run (Ref F × State F)

-- The length of the array `Inline` of an instance.
abbrev pub inline_capacity : ℕ
inline_capacity = 1

-- `a[:n]` of an array `a`, by their lengths: it panics beyond the end of the array.
abbrev pub slice_array : ℕ → ℕ → Run ℕ
slice_array capacity n = if leb n capacity then done n else panic

-- The places for the parts of a clone, by their number: an instance takes its inline storage for up to
-- four fields, and makes a slice for more.
unfoldable pub make_slots : {F : Type 0} → Object F → Run ℕ
make_slots o = elim o.shape [
  | instance_of c frozen ↦
      if leb (length o.slots) 4
      then slice_array inline_capacity (length o.slots)
      else done (length o.slots)
  | _ ↦ done (length o.slots)
]

unfoldable pub copy_slots :
    {F : Type 0} → Copier F → List (Ref F) → State F → Run (List (Ref F) × State F)
copy_slots copy [] st = done ([], st)
copy_slots copy (v ∷ slots) st = do
  (v', st1) ← copy v st
  (slots', st2) ← copy_slots copy slots st1
  done (v' ∷ slots', st2)

module _ (fl : Float64) where
  -- `ObjectValue`.
  unfoldable pub object_value : ℕ → Ref fl.F
  object_value p = record (nil_value fl) { kind = object; obj = some p }

  -- The clone is filled when its parts are copied; nothing reads it before.
  unfoldable pub copy_first :
      Copier fl.F → ℕ → Object fl.F → State fl.F → Run (Ref fl.F × State fl.F)
  copy_first copy p o st = do
    (slots, st1) ← copy_slots copy o.slots (register p (record o { slots = [] }) st)
    done (
      object_value st.size,
      record st1 { objects = set_object st.size (record o { slots = slots }) st1.objects },
    )

  unfoldable pub copy_last :
      Copier fl.F → ℕ → Object fl.F → State fl.F → Run (Ref fl.F × State fl.F)
  copy_last copy p o st = do
    (slots, st1) ← copy_slots copy o.slots st
    done (object_value st1.size, register p (record o { slots = slots }) st1)

  -- The switch over the type of the object `o` at `p`.
  unfoldable pub copy_object :
      Copier fl.F → Ref fl.F → ℕ → Object fl.F → State fl.F → Run (Ref fl.F × State fl.F)
  copy_object copy v p o st = elim (order o.shape) [
    | first ↦ make_slots o >>= λ n. copy_first copy p o st
    | last ↦ copy_last copy p o st
    | never ↦ done (v, st)
  ]

  unfoldable pub copy_address :
      Copier fl.F → Ref fl.F → ℕ → State fl.F → Run (Ref fl.F × State fl.F)
  copy_address copy v p st = elim (find_copy p st.visited) [
    | some q ↦ done (object_value q, st)
    | none ↦ copy_object copy v p (st.objects p) st
  ]

  -- `deepCopyValue`, on fuel for the depth of the recursion.
  unfoldable pub deep_copy_value : ℕ → Copier fl.F
  deep_copy_value zero v st = stuck
  deep_copy_value (suc n) v st = elim (address v) [
    | none ↦ done (v, st)
    | some p ↦ copy_address (deep_copy_value n) v p st
  ]

  -- `DeepCopy`, on a heap.
  unfoldable pub deep_copy : ℕ → Ref fl.F → ℕ → (ℕ → Object fl.F) → Run (Ref fl.F × State fl.F)
  deep_copy n v size objects =
      deep_copy_value n v (record { size = size; objects = objects; visited = [] })
