-- ===== src/Vm/Arith/Power.antt =====
-- internal/vm/vm.go: the integer power of `binaryPowOp`, `powInt64SquareMultiply` with `multiplyInt64Checked`,
-- on 64-bit patterns.
use polyloft_bvm.Prelude.{
  ℕ, zero, suc, ◌+◌, ◌-◌, ◌*◌, ◌/◌, ◌%◌, ◌^◌, ◌≤◌, ◌<◌, ◌≡◌, ◌≢◌, refl, sym, ap, ◌∙◌, true, false,
  ◌||◌, Option, none, some, leb, ◌==◌, if◌then◌else◌, Bool-cases, leb→le, ==_iff, inl, inr, ◌⊎◌,
  arith,
}
use native.Mathlib.Nat.{
  mul-div_cancel, div-le_self, div-lt_iff_lt-mul, le-mul_of_pos_right, mul-pos, pow-zero, pow-suc,
  mul-one, one-mul, two-pow-succ, one-le-pow, pow-succ', mul_assoc, mul_comm,
}
use polyloft_bvm.Value.FastMethod.{neg64, quot64}

unfoldable pub multiply_int64_checked : ℕ → ℕ → Option ℕ
multiply_int64_checked l r =
    if (l == 0) || (r == 0)
    then some 0
    else (let product = (l * r) % 2 ^ 64 in if quot64 product r == l then some product else none)

-- `stuck` is an end of fuel.
pub data Power : Type 0 where
  power : ℕ → Power
  overflow stuck : Power

-- The loop over the bits of the exponent that remain.
unfoldable pub pow_loop : ℕ → ℕ → ℕ → ℕ → Power
pow_loop zero result current remaining = stuck
pow_loop (suc n) result current remaining =
    if remaining == 0
    then power result
    else (elim (if remaining % 2 == 1 then multiply_int64_checked result current else some result) [
      | none ↦ overflow
      | some next ↦ elim (remaining / 2 == 0) [
        | true ↦ power next
        | false ↦ elim (multiply_int64_checked current current) [
          | none ↦ overflow
          | some square ↦ pow_loop n next square (remaining / 2)
        ]
      ]
    ])

-- An exponent has at most 63 bits.
unfoldable pub pow_int64_square_multiply : ℕ → ℕ → Power
pow_int64_square_multiply base exponent = pow_loop 64 1 base exponent

-- The checked product of positive numbers.
abbrev Product : ℕ → Option ℕ → Type 0
Product p o = (p < 2 ^ 63 → o ≡ some p) × (2 ^ 63 ≤ p → o ≡ none)

quotient_fits :
    (l r : ℕ) → 0 < l → 0 < r → r < 2 ^ 63 → l * r < 2 ^ 63 → quot64 ((l * r) % 2 ^ 64) r ≡ l
quotient_fits l r hl hr b h =
    let small : (l * r) % 2 ^ 64 ≡ l * r = omega (arith, h) in
    let pos : leb (2 ^ 63) (l * r) ≡ false = ground (arith, h) in
    let rpos : leb (2 ^ 63) r ≡ false = ground (arith, b) in
    rw (small, pos, rpos) (mul-div_cancel l hr)

neg64_ne : (q l : ℕ) → q ≤ 2 ^ 63 → 0 < l → l < 2 ^ 63 → neg64 q ≢ l
neg64_ne q l h a b e = absurd (omega (arith, h, a, b, e))

quotient_overflows :
    (l r : ℕ)
    → 0 < l
    → l < 2 ^ 63
    → 0 < r
    → r < 2 ^ 63
    → 2 ^ 63 ≤ l * r
    → quot64 ((l * r) % 2 ^ 64) r ≢ l
quotient_overflows l r hl bl hr br h =
    let rpos : leb (2 ^ 63) r ≡ false = ground (arith, br) in
    elim (Bool-cases (leb (2 ^ 63) ((l * r) % 2 ^ 64))) [
      | inl neg ↦
          let big : 2 ^ 63 ≤ (l * r) % 2 ^ 64 = leb→le (2 ^ 63) ((l * r) % 2 ^ 64) neg in
          rw (neg, rpos)
            (neg64_ne ((2 ^ 64 - (l * r) % 2 ^ 64) / r) l
              (omega (arith, big, div-le_self (2 ^ 64 - (l * r) % 2 ^ 64) r)) hl bl)
      | inr pos ↦
          let small : (l * r) % 2 ^ 64 < 2 ^ 63 = ground (arith, pos) in
          let less : (l * r) % 2 ^ 64 / r < l =
            (div-lt_iff_lt-mul hr).1 (omega (arith, small, h)) in
          rw (pos, rpos) (λ e. absurd (omega (arith, less, e)))
    ]

multiply_int64_checked-Product :
    (l r : ℕ)
    → 0 < l
    → l < 2 ^ 63
    → 0 < r
    → r < 2 ^ 63
    → Product (l * r) (multiply_int64_checked l r)
unfolding multiply_int64_checked
multiply_int64_checked-Product l r hl bl hr br =
    let lz : (l == 0) ≡ false = ground (arith, hl) in
    let rz : (r == 0) ≡ false = ground (arith, hr) in
    (
      (λ h.
          let same : (l == l) ≡ true = ground arith in
          let small : (l * r) % 2 ^ 64 ≡ l * r = omega (arith, h) in
          rw (lz, rz, quotient_fits l r hl hr br h, same, small) refl),
      (λ h.
          let ne : quot64 ((l * r) % 2 ^ 64) r ≢ l = quotient_overflows l r hl bl hr br h in
          let differs : (quot64 ((l * r) % 2 ^ 64) r == l) ≡ false = ground (arith, ne) in
          rw (lz, rz, differs) refl),
    )

-- The power of a square.
power_square : (c q : ℕ) → c ^ (q + q) ≡ (c * c) ^ q
power_square c zero = pow-zero c ∙ sym (pow-zero (c * c))
power_square c (suc q) =
    let split : suc q + suc q ≡ suc (suc (q + q)) = omega arith in
    ap (λ k. c ^ k) split
    ∙ pow-suc c (suc (q + q))
    ∙ ap (λ x. x * c) (pow-suc c (q + q))
    ∙ mul_assoc (c ^ (q + q)) c c
    ∙ ap (λ x. x * (c * c)) (power_square c q)
    ∙ sym (pow-suc (c * c) q)

abbrev pub PowerOf : ℕ → Power → Type 0
PowerOf p o = (p < 2 ^ 63 → o ≡ power p) × (2 ^ 63 ≤ p → o ≡ overflow)

-- The rest of a round, after the product; the loop is right on fewer bits.
abbrev rest : ℕ → ℕ → ℕ → ℕ → Power
rest n next current q = elim (q == 0) [
  | true ↦ power next
  | false ↦ elim (multiply_int64_checked current current) [
    | none ↦ overflow
    | some square ↦ pow_loop n next square q
  ]
]

abbrev Right : ℕ → Type 0
Right n =
    (r c m : ℕ)
    → m < 2 ^ n
    → 0 < m
    → 0 < r
    → r < 2 ^ 63
    → 0 < c
    → c < 2 ^ 63
    → PowerOf (r * c ^ m) (pow_loop n r c m)

lt_or_le : (a b : ℕ) → (a < b) ⊎ (b ≤ a)
lt_or_le a b = elim (Bool-cases (leb b a)) [
  | inl t ↦ inr (leb→le b a t)
  | inr f ↦ inl (ground (arith, f))
]

rest-Right :
    (n next c q : ℕ)
    → Right n
    → q < 2 ^ n
    → 0 < next
    → next < 2 ^ 63
    → 0 < c
    → c < 2 ^ 63
    → PowerOf (next * (c * c) ^ q) (rest n next c q)
rest-Right n next c zero ih b hn bn hc bc =
    rw (pow-zero (c * c), mul-one next) ((λ h. refl), (λ h. absurd (omega (arith, h, bn))))
rest-Right n next c (suc q) ih b hn bn hc bc =
    let checked = multiply_int64_checked-Product c c hc bc hc bc in
    let nz : (suc q == 0) ≡ false = ground arith in
    elim (lt_or_le (c * c) (2 ^ 63)) [
      | inl less ↦
          rw (rest, nz, checked.0 less)
            (ih next (c * c) (suc q) b (omega arith) hn bn (mul-pos hc hc) less)
      | inr more ↦
          let one : 1 ≤ (c * c) ^ q = one-le-pow q (c * c) (mul-pos hc hc) in
          let grow : c * c ≤ (c * c) ^ suc q =
            rw (pow-succ' (c * c) q) (le-mul_of_pos_right (c * c) one) in
          let all : (c * c) ^ suc q ≤ next * (c * c) ^ suc q =
            rw (mul_comm next ((c * c) ^ suc q)) (le-mul_of_pos_right ((c * c) ^ suc q) hn) in
          rw (rest, nz, checked.1 more)
            ((λ h. absurd (omega (arith, h, more, grow, all))), (λ h. refl))
    ]

pow_loop-Right : (n : ℕ) → Right n
unfolding pow_loop
pow_loop-Right zero r c m b hm hr br hc bc = absurd (omega (arith, b, hm))
pow_loop-Right (suc n) r c m b hm hr br hc bc =
    let mz : (m == 0) ≡ false = ground (arith, hm) in
    let few : m / 2 < 2 ^ n = omega (arith, b, two-pow-succ n) in
    elim (Bool-cases (m % 2 == 1)) [
      | inl odd ↦
          let one : m % 2 ≡ 1 = (==_iff (m % 2) 1).0 odd in
          let twice : m ≡ suc (m / 2 + m / 2) = omega (arith, one) in
          let split : r * c ^ m ≡ r * c * (c * c) ^ (m / 2) =
            ap (λ k. r * c ^ k) twice
            ∙ ap (λ x. r * x) (pow-succ' c (m / 2 + m / 2))
            ∙ sym (mul_assoc r c (c ^ (m / 2 + m / 2)))
            ∙ ap (λ x. r * c * x) (power_square c (m / 2)) in
          let checked = multiply_int64_checked-Product r c hr br hc bc in
          elim (lt_or_le (r * c) (2 ^ 63)) [
            | inl less ↦
                rw (split, mz, odd, checked.0 less)
                  (rest-Right n (r * c) c (m / 2) (pow_loop-Right n) few (mul-pos hr hc) less hc bc)
            | inr more ↦
                let grow : r * c ≤ r * c * (c * c) ^ (m / 2) =
                  le-mul_of_pos_right (r * c) (one-le-pow (m / 2) (c * c) (mul-pos hc hc)) in
                rw (split, mz, odd, checked.1 more)
                  ((λ h. absurd (omega (arith, h, more, grow))), (λ h. refl))
          ]
      | inr even ↦
          let none_left : m % 2 ≢ 1 = ground (arith, even) in
          let twice : m ≡ m / 2 + m / 2 = omega (arith, none_left) in
          let split : r * c ^ m ≡ r * (c * c) ^ (m / 2) =
            ap (λ k. r * c ^ k) twice ∙ ap (λ x. r * x) (power_square c (m / 2)) in
          rw (split, mz, even) (rest-Right n r c (m / 2) (pow_loop-Right n) few hr br hc bc)
    ]

-- `powInt64SquareMultiply` of a positive base and an exponent of int64 is the power if that is below 2^63,
-- and reports an overflow if it is not.
pub pow_int64_square_multiply_lem :
    (base exponent : ℕ)
    → 0 < base
    → base < 2 ^ 63
    → exponent < 2 ^ 63
    → PowerOf (base ^ exponent) (pow_int64_square_multiply base exponent)
unfolding pow_int64_square_multiply pow_loop
pow_int64_square_multiply_lem base zero h b e =
    rw (pow-zero base) ((λ h. refl), (λ h. absurd (omega (arith, h))))
pow_int64_square_multiply_lem base (suc m) h b e =
    let o =
      pow_loop-Right 64 1 base (suc m) (omega (arith, e)) (omega arith) (omega arith) (omega arith)
        h b in
    rw (one-mul (base ^ suc m)) at o
