-- ===== src/Prelude/Sort.antt =====
-- Go's order of strings, and the entries of a map in the order of their keys.
use polyloft_bvm.Prelude.Tests.{if◌then◌else◌, if_case, ltb, ◌==◌}
use polyloft_bvm.Prelude.Lists.{length, All}
use polyloft_bvm.Prelude.Maps.{Text, same_text, same_text_iff, TextMap, get?, Absent, IsMap}
use mathlib.Core.Path.{◌≡◌, refl, sym, ap, ◌∙◌}
use mathlib.Core.Logic.{◌≢◌}
use mathlib.Core.Bool.{Bool, true, false, ◌&&◌, ◌||◌}
use mathlib.Core.List.{[], ◌∷◌}
use mathlib.Core.Option.{some}
use native.Mathlib.Omega.{arith}

-- `a <= b` on strings.
unfoldable pub text_le : Text → Text → Bool
text_le [] b = true
text_le (x ∷ a) [] = false
text_le (x ∷ a) (y ∷ b) = ltb x y || (x == y && text_le a b)

module _ {ℓ} {V : Type ℓ} where
  unfoldable pub insert_key : Text × V → TextMap V → TextMap V
  insert_key e [] = e ∷ []
  insert_key e (d ∷ m) = if text_le e.0 d.0 then e ∷ d ∷ m else d ∷ insert_key e m

  -- The keys collected, `sort.Strings` on them, and the entries of the keys.
  unfoldable pub sort_by_key : TextMap V → TextMap V
  sort_by_key [] = []
  sort_by_key (e ∷ m) = insert_key e (sort_by_key m)

  length-insert_key : (e : Text × V) (m : TextMap V) → length (insert_key e m) ≡ length (e ∷ m)
  unfolding insert_key
  length-insert_key e [] = refl
  length-insert_key e (d ∷ m) = ground (arith, length-insert_key e m)

  pub length-sort_by_key : (m : TextMap V) → length (sort_by_key m) ≡ length m
  unfolding sort_by_key
  length-sort_by_key [] = refl
  length-sort_by_key (e ∷ m) =
      omega (arith, length-insert_key e (sort_by_key m), length-sort_by_key m)

  module _ {κ} (P : Text × V → Type κ) where
    All-insert_key : (e : Text × V) (m : TextMap V) → P e → All P m → All P (insert_key e m)
    unfolding insert_key
    All-insert_key e [] h hs = (h, tt)
    All-insert_key e (d ∷ m) h hs =
        if_case (All P) (text_le e.0 d.0) (λ _. (h, hs)) (λ _. (hs.0, All-insert_key e m h hs.1))

    pub All-sort_by_key : (m : TextMap V) → All P m → All P (sort_by_key m)
    unfolding sort_by_key
    All-sort_by_key [] hs = tt
    All-sort_by_key (e ∷ m) hs = All-insert_key e (sort_by_key m) hs.0 (All-sort_by_key m hs.1)

  Absent-insert_key :
      (k : Text) (e : Text × V) (m : TextMap V) → e.0 ≢ k → Absent k m → Absent k (insert_key e m)
  unfolding insert_key
  Absent-insert_key k e [] ne h = (ne, tt)
  Absent-insert_key k e (d ∷ m) ne h =
      if_case (Absent k) (text_le e.0 d.0) (λ _. (ne, h))
        (λ _. (h.0, Absent-insert_key k e m ne h.1))

  Absent-sort_by_key : (k : Text) (m : TextMap V) → Absent k m → Absent k (sort_by_key m)
  unfolding sort_by_key
  Absent-sort_by_key k [] h = tt
  Absent-sort_by_key k (e ∷ m) h =
      Absent-insert_key k e (sort_by_key m) h.0 (Absent-sort_by_key k m h.1)

  IsMap-insert_key :
      (e : Text × V) (m : TextMap V) → Absent e.0 m → IsMap m → IsMap (insert_key e m)
  unfolding insert_key
  IsMap-insert_key e [] a h = (tt, tt)
  IsMap-insert_key e (d ∷ m) a h =
      if_case IsMap (text_le e.0 d.0) (λ _. (a, h))
        (λ _. (Absent-insert_key d.0 e m (λ q. a.0 (sym q)) h.0, IsMap-insert_key e m a.1 h.1))

  pub IsMap-sort_by_key : (m : TextMap V) → IsMap m → IsMap (sort_by_key m)
  unfolding sort_by_key
  IsMap-sort_by_key [] h = tt
  IsMap-sort_by_key (e ∷ m) h =
      IsMap-insert_key e (sort_by_key m) (Absent-sort_by_key e.0 m h.0) (IsMap-sort_by_key m h.1)

  get?-insert_key :
      (j : Text) (e : Text × V) (m : TextMap V)
      → Absent e.0 m
      → get? j (insert_key e m) ≡ get? j (e ∷ m)
  unfolding insert_key get?
  get?-insert_key j e [] a = refl
  get?-insert_key j e (d ∷ m) a =
      ground (arith, get?-insert_key j e m a.1, a.0, same_text_iff e.0 j, same_text_iff d.0 j)

  -- The same map.
  pub get?-sort_by_key : (j : Text) (m : TextMap V) → IsMap m → get? j (sort_by_key m) ≡ get? j m
  unfolding sort_by_key get?
  get?-sort_by_key j [] h = refl
  get?-sort_by_key j (e ∷ m) h =
      get?-insert_key j e (sort_by_key m) (Absent-sort_by_key e.0 m h.0)
      ∙ ap (λ r. if same_text e.0 j then some e.1 else r) (get?-sort_by_key j m h.1)
