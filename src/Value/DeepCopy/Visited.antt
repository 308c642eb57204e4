-- ===== src/Value/DeepCopy/Visited.antt =====
-- The addresses that `DeepCopy` has visited.
use polyloft_bvm.Prelude.{
  ℕ, zero, suc, ◌+◌, ◌≤◌, ◌<◌, ◌≡◌, refl, List, [], ◌∷◌, ◌++◌, Option, none, some, ◌⊎◌, inl, inr,
  ◌==◌, ==_iff, if_case, Bool-cases, ◌≢◌, arith,
}
use polyloft_bvm.Value.DeepCopy.{find_copy}

-- A pair is an entry of the map, or an earlier one for its address.
abbrev pub IsCopy : List (ℕ × ℕ) → ℕ → ℕ → Type 0
IsCopy [] p q = ⊥
IsCopy (e ∷ es) p q = ((e.0 ≡ p) × (e.1 ≡ q)) ⊎ IsCopy es p q

pub find_copy-IsCopy : (p q : ℕ) (es : List (ℕ × ℕ)) → find_copy p es ≡ some q → IsCopy es p q
find_copy-IsCopy p q [] = λ e. absurd (cc)
find_copy-IsCopy p q ((k, r) ∷ es) =
    if_case (λ o. o ≡ some q → IsCopy ((k, r) ∷ es) p q) (k == p)
      (λ t e. inl ((==_iff k p).0 t, (let d : r ≡ q = cc in d)))
      (λ f e. inr (find_copy-IsCopy p q es e))

pub IsCopy-append :
    (es fs : List (ℕ × ℕ)) (p q : ℕ) → IsCopy (es ++ fs) p q → IsCopy es p q ⊎ IsCopy fs p q
IsCopy-append [] fs p q h = inr h
IsCopy-append (e ∷ es) fs p q (inl h) = inl (inl h)
IsCopy-append (e ∷ es) fs p q (inr h) = elim (IsCopy-append es fs p q h) [
  | inl k ↦ inl (inr k)
  | inr k ↦ inr k
]

pub IsCopy-later : (es fs : List (ℕ × ℕ)) (p q : ℕ) → IsCopy fs p q → IsCopy (es ++ fs) p q
IsCopy-later [] fs p q h = h
IsCopy-later (e ∷ es) fs p q h = inr (IsCopy-later es fs p q h)

-- Whether an address is still to be visited, as a number.
abbrev fresh : Option ℕ → ℕ
fresh none = 1
fresh (some q) = 0

-- The number of addresses below a bound that are not visited.
abbrev pub unvisited : List (ℕ × ℕ) → ℕ → ℕ
unvisited es zero = 0
unvisited es (suc n) = unvisited es n + fresh (find_copy n es)

fresh_le : (o : Option ℕ) → fresh o ≤ 1
fresh_le none = omega arith
fresh_le (some q) = omega arith

pub unvisited_all : (n : ℕ) → unvisited [] n ≤ n
unvisited_all zero = omega arith
unvisited_all (suc n) = omega (arith, unvisited_all n)

find_step :
    (p q k : ℕ) (es : List (ℕ × ℕ)) → fresh (find_copy k ((p, q) ∷ es)) ≤ fresh (find_copy k es)
find_step p q k es =
    if_case (λ o. fresh o ≤ fresh (find_copy k es)) (p == k) (λ t. omega arith) (λ f. omega arith)

unvisited_step : (p q n : ℕ) (es : List (ℕ × ℕ)) → unvisited ((p, q) ∷ es) n ≤ unvisited es n
unvisited_step p q zero es = omega arith
unvisited_step p q (suc n) es = omega (arith, unvisited_step p q n es, find_step p q n es)

pub unvisited-append : (es fs : List (ℕ × ℕ)) (n : ℕ) → unvisited (es ++ fs) n ≤ unvisited fs n
unvisited-append [] fs n = omega arith
unvisited-append ((p, q) ∷ es) fs n =
    omega (arith, unvisited_step p q n (es ++ fs), unvisited-append es fs n)

-- A visit to a new address leaves one less.
pub unvisited_less :
    (p q n : ℕ) (es : List (ℕ × ℕ))
    → find_copy p es ≡ none
    → p < n
    → unvisited ((p, q) ∷ es) n + 1 ≤ unvisited es n
unvisited_less p q zero es e h = absurd (omega (arith, h))
unvisited_less p q (suc n) es e h = elim (Bool-cases (p == n)) [
  | inl t ↦
      let d : p ≡ n = (==_iff p n).0 t in
      let new : fresh (find_copy n es) ≡ 1 = rw (← d, e) refl in
      let old : fresh (find_copy n ((p, q) ∷ es)) ≡ 0 = rw t refl in
      omega (arith, new, old, unvisited_step p q n es)
  | inr f ↦
      let ne : p ≢ n = ground (arith, f) in
      let k : unvisited ((p, q) ∷ es) n + 1 ≤ unvisited es n =
        unvisited_less p q n es e (omega (arith, h, ne)) in
      omega (arith, k, find_step p q n es)
]
