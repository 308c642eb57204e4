-- ===== src/Prelude/Maps.antt =====
-- Go's strings as lists of bytes or code points, and its maps with string keys as association lists
-- without repeated keys.
use Prim.Native.Nat.{ℕ}
use mathlib.Core.Path.{◌≡◌, refl}
use mathlib.Core.Logic.{◌↔◌, ◌≢◌}
use mathlib.Core.Bool.{Bool, true, false, ◌&&◌}
use mathlib.Core.Option.{Option, none, some}
use mathlib.Core.List.{List, [], ◌∷◌, ◌++◌}
use native.Mathlib.Omega.{arith}
use polyloft_bvm.Prelude.Tests.{◌==◌, if◌then◌else◌}

abbrev pub Text : Type 0
Text = List ℕ

-- Go's `==` on strings.
unfoldable pub same_text : Text → Text → Bool
same_text [] [] = true
same_text (x ∷ xs) (y ∷ ys) = x == y && same_text xs ys
same_text _ _ = false

pub same_text_iff : (a b : Text) → (same_text a b ≡ true) ↔ (a ≡ b)
unfolding same_text
same_text_iff (x ∷ a) (y ∷ b) = ground (arith, same_text_iff a b)
same_text_iff _ _ = ground arith

pub same_text_self : (a : Text) → same_text a a ≡ true
same_text_self a = (same_text_iff a a).1 refl

pub same_text_ne : (a b : Text) → a ≢ b → same_text a b ≡ false
same_text_ne a b h = ground (arith, same_text_iff a b)

abbrev pub TextMap {ℓ} : Type ℓ → Type ℓ
TextMap V = List (Text × V)

module _ {ℓ} {V : Type ℓ} where
  -- `v, ok := m[k]`.
  unfoldable pub get? : Text → TextMap V → Option V
  get? k [] = none
  get? k ((j, v) ∷ m) = if same_text j k then some v else get? k m

  -- `m[k] = v`.
  unfoldable pub put : Text → V → TextMap V → TextMap V
  put k v [] = (k, v) ∷ []
  put k v ((j, w) ∷ m) = if same_text j k then (k, v) ∷ m else (j, w) ∷ put k v m

  abbrev pub Absent : Text → TextMap V → Type 0
  Absent k [] = Unit
  Absent k ((j, v) ∷ m) = (j ≢ k) × Absent k m

  -- No key is repeated.
  abbrev pub IsMap : TextMap V → Type 0
  IsMap [] = Unit
  IsMap ((k, v) ∷ m) = Absent k m × IsMap m

module _ {ℓ} {V : Type ℓ} where
  pub get?-put :
      (k j : Text) (v : V) (m : TextMap V)
      → get? j (put k v m) ≡ (if same_text k j then some v else get? j m)
  unfolding get? put
  get?-put k j v [] = refl
  get?-put k j v ((i, w) ∷ m) =
      ground (arith, same_text_iff k j, same_text_iff i k, same_text_iff i j, get?-put k j v m)

  pub put_new : (k : Text) (v : V) (m : TextMap V) → Absent k m → put k v m ≡ m ++ (k, v) ∷ []
  unfolding put
  put_new k v [] h = refl
  put_new k v ((j, w) ∷ m) h = ground (arith, same_text_ne j k h.0, put_new k v m h.1)

  pub Absent-append : (k : Text) (m n : TextMap V) → Absent k m → Absent k n → Absent k (m ++ n)
  Absent-append k [] n h i = i
  Absent-append k ((j, v) ∷ m) n h i = (h.0, Absent-append k m n h.1 i)
