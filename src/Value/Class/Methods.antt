-- ===== src/Value/Class/Methods.antt =====
-- The methods of a class: the tables and maps of functions, and the special methods.
use mathlib.Core.Path.{fun_ext}
use polyloft_bvm.Prelude.{
  ℕ, ◌≤◌, ◌||◌, ltb, Option-cases, inl, inr, ◌≡◌, refl, ◌∙◌, Bool, true, false, List, [], ◌∷◌, ◌++◌,
  append_assoc, append-nil, Option, none, some, Text, TextMap, put, put_new, IsMap, length, All,
  All-map, arith, ◌==◌, if◌then◌else◌,
}
use polyloft_bvm.Binary.{Writer, Reader, write_each}
use polyloft_bvm.Binary.Reads.{
  Reads, Reads-seq, Reads-last, Reads-done, Reads-give, Reads-byte, Reads-u32, Reads-each,
}
use polyloft_bvm.Bytecode.RoundTrip.{Short, Reads-string, IsMap-Absent}
use polyloft_bvm.Value.Class.{special_method_slots, write_counted, read_counted}
use polyloft_bvm.Value.Class.Layout.{
  write_method?, write_named_method, declare_slot, declared, write_special, read_method?,
  read_named_method, read_special, put_method, read_counted_methods, read_counted_specials,
  read_methods, update_slot, read_specials,
}

declared_at : (slots : List ℕ) → ℕ → Bool
declared_at [] j = false
declared_at (slot ∷ slots) j = slot == j || declared_at slots j

module _ {F : Type 0} where
  -- The entries that are not nil, which are those that `readClass` puts in its map.
  abbrev pub present : TextMap (Option F) → TextMap (Option F)
  present [] = []
  present ((k, none) ∷ m) = present m
  present ((k, some f) ∷ m) = (k, some f) ∷ present m

  -- The pairs put into a map, one after the other.
  abbrev pub over : List (ℕ × F) → (ℕ → Option F) → ℕ → Option F
  over [] m = m
  over (e ∷ pairs) m = over pairs (update_slot m e.0 e.1)

  abbrev pick : Bool → Option F → Option F → Option F
  pick true (some f) d = some f
  pick _ _ d = d

  length-declared :
      (special : ℕ → Option F) (slots : List ℕ) → length (declared special slots) ≤ length slots
  length-declared special [] = omega arith
  length-declared special (slot ∷ slots) = ground (arith, length-declared special slots)

  over-declared_at :
      (special : ℕ → Option F) (slots : List ℕ) (m : ℕ → Option F) (j : ℕ)
      → over (declared special slots) m j ≡ pick (declared_at slots j) (special j) (m j)
  unfolding declared_at
  over-declared_at special [] m j = refl
  over-declared_at special (slot ∷ slots) m j = elim (Option-cases (special slot)) [
    | inl e ↦ rw e (ground (arith, over-declared_at special slots m j))
    | inr (f, e) ↦ rw e (ground (arith, over-declared_at special slots (update_slot m slot f) j))
  ]

  -- The slots that the format knows.
  abbrev pub kept : (ℕ → Option F) → ℕ → Option F
  kept special slot = if ltb slot 10 then special slot else none

  over-declared :
      (special : ℕ → Option F)
      → over (declared special special_method_slots) (λ slot. none) ≡ kept special
  unfolding declared_at
  over-declared special =
      fun_ext λ j. over-declared_at special special_method_slots (λ slot. none) j ∙ ground arith

-- The functions of a table or a map.
abbrev pub Each : {F : Type 0} → (F → Type 0) → Option F → Type 0
Each Good none = Unit
Each Good (some f) = Good f

-- The special methods of some slots.
abbrev pub GoodSlots : {F : Type 0} → (F → Type 0) → (ℕ → Option F) → List ℕ → Type 0
GoodSlots Good special slots = All (λ slot. Each Good (special slot)) slots

abbrev pub FitsNamed : {F : Type 0} → (F → Type 0) → Text × Option F → Type 0
FitsNamed Good e = Short e.0 × Each Good e.1

module _ {S T F : Type 0} (R : S → T → Type 0) (write_fn : F → Writer S) (read_fn : Reader T F)
    (Good : F → Type 0) (law : (f : F) → Good f → Reads R (write_fn f) read_fn f) where
  pub Reads-method? :
      (o : Option F) → Each Good o → Reads R (write_method? write_fn o) (read_method? read_fn) o
  unfolding write_method? read_method?
  Reads-method? none h = Reads-done R _ refl (Reads-byte R 0)
  Reads-method? (some f) h = Reads-seq R _ (Reads-byte R 1) (Reads-last R (λ g. some g) (law f h))

  pub Reads-method_table :
      (table : List (Option F))
      → Short table
      → All (Each Good) table
      → Reads R
          (write_counted (write_method? write_fn) table)
          (read_counted (read_method? read_fn))
          table
  unfolding write_counted read_counted
  Reads-method_table table s h = Reads-seq R _ (Reads-u32 R (length table) s) (
      Reads-each R (write_method? write_fn) (read_method? read_fn) table
        (All-map Reads-method? table h))

  Reads-named_method :
      (e : Text × Option F)
      → FitsNamed Good e
      → Reads R (write_named_method write_fn e) (read_named_method read_fn) e
  unfolding write_named_method read_named_method
  Reads-named_method e h =
      Reads-seq R _ (Reads-string R e.0 h.0) (Reads-last R (λ f. (e.0, f)) (Reads-method? e.1 h.1))

  read_methods-each :
      (entries m : TextMap (Option F))
      → IsMap (m ++ present entries)
      → All (FitsNamed Good) entries
      → Reads R
          (write_each (write_named_method write_fn) entries)
          (read_methods read_fn (length entries) m)
          (m ++ present entries)
  unfolding write_each read_methods
  read_methods-each [] m h hs = rw append-nil (Reads-give R m)
  read_methods-each ((k, none) ∷ entries) m h (e, es) =
      Reads-seq R (λ e. read_methods read_fn (length entries) (put_method e.0 e.1 m))
        (Reads-named_method (k, none) e) (read_methods-each entries m h es)
  read_methods-each ((k, some f) ∷ entries) m h (e, es) =
      let keep : m ++ (k, some f) ∷ present entries ≡ put k (some f) m ++ present entries =
        rw (put_new k (some f) m (IsMap-Absent k (some f) m (present entries) h), append_assoc) in
      rw keep (
        Reads-seq R (λ e. read_methods read_fn (length entries) (put_method e.0 e.1 m))
          (Reads-named_method (k, some f) e)
          (read_methods-each entries (put k (some f) m) (rw keep at h) es))

  pub Reads-methods :
      (entries : TextMap (Option F))
      → Short entries
      → IsMap (present entries)
      → All (FitsNamed Good) entries
      → Reads R
          (write_counted (write_named_method write_fn) entries)
          (read_counted_methods read_fn)
          (present entries)
  unfolding write_counted read_counted_methods
  Reads-methods entries s h hs =
      Reads-seq R _ (Reads-u32 R (length entries) s) (read_methods-each entries [] h hs)

  Reads-special :
      (e : ℕ × F) → Good e.1 → Reads R (write_special write_fn e) (read_special read_fn) e
  unfolding write_special read_special
  Reads-special e h = Reads-seq R _ (Reads-byte R e.0) (Reads-last R (λ f. (e.0, f)) (law e.1 h))

  read_specials-Reads :
      (special : ℕ → Option F) (pairs : List (ℕ × F)) (m : ℕ → Option F)
      → All (λ e. Good e.1) pairs
      → Reads R
          (write_each (write_special write_fn) pairs)
          (read_specials read_fn (length pairs) m)
          (over pairs m)
  unfolding write_each read_specials
  read_specials-Reads special [] m h = Reads-give R m
  read_specials-Reads special (e ∷ pairs) m h =
      Reads-seq R (λ d. read_specials read_fn (length pairs) (update_slot m d.0 d.1))
        (Reads-special e h.0) (read_specials-Reads special pairs (update_slot m e.0 e.1) h.1)

  declare_slot-Good :
      (slot : ℕ) (o : Option F) (rest : List (ℕ × F))
      → Each Good o
      → All (λ e. Good e.1) rest
      → All (λ e. Good e.1) (declare_slot slot o rest)
  declare_slot-Good slot none rest h hs = hs
  declare_slot-Good slot (some f) rest h hs = (h, hs)

  declared-Good :
      (special : ℕ → Option F) (slots : List ℕ)
      → GoodSlots Good special slots
      → All (λ e. Good e.1) (declared special slots)
  declared-Good special [] h = tt
  declared-Good special (slot ∷ slots) h =
      declare_slot-Good slot (special slot) (declared special slots) h.0
        (declared-Good special slots h.1)

  pub Reads-specials :
      (special : ℕ → Option F)
      → GoodSlots Good special special_method_slots
      → Reads R
          (write_counted (write_special write_fn) (declared special special_method_slots))
          (read_counted_specials read_fn)
          (kept special)
  unfolding write_counted read_counted_specials
  Reads-specials special h =
      let pairs = declared special special_method_slots in
      rw (← over-declared special) (
        Reads-seq R _
          (Reads-u32 R (length pairs) (omega (arith, length-declared special special_method_slots)))
          (read_specials-Reads special pairs (λ slot. none)
            (declared-Good special special_method_slots h)))
