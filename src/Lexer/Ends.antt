-- ===== src/Lexer/Ends.antt =====
-- Strings, characters, numbers and names: each literal's scanner stays inside the source, ends, and
-- reports an error at the place where the literal begins.
use polyloft_bvm.Prelude.{
  ℕ, zero, suc, ◌+◌, ◌-◌, ◌<◌, ◌≡◌, ◌≢◌, refl, true, false, List, length, arith, if_case, Bool,
  ◌&&◌, not, ◌==◌, get_or,
}
use polyloft_bvm.Lexer.{
  Unicode, Lexer, Result, ok, err, stuck, ◌>>=◌, is_at_end, peek, peek_next, current, advance,
}
use polyloft_bvm.Lexer.Literals.{
  string_body, char_escape, char_value, number_digits, consume_number_digits, number_fraction,
  name_end, is_name,
}
use polyloft_bvm.Lexer.Position.{
  At, Reaches, Reaches-refl, Reaches-trans, advance-Reaches, advance-cur, peek-lt, peek_test-lt,
  peek_next_ne_zero,
}

-- What a scanner of part of a token may answer.
abbrev pub Ends {ℓ} : {A : Type ℓ} → (A → Lexer) → List ℕ → Lexer → ℕ → ℕ → Result A → Type 0
Ends state src a line col (ok b) = Reaches src a (state b)
Ends state src a line col (err l c p) = (l ≡ line) × (c ≡ col)
Ends state src a line col stuck = ⊥

abbrev pub same : Lexer → Lexer
same a = a

-- The state that comes with a value.
abbrev pub behind {ℓ} : {A : Type ℓ} → A × Lexer → Lexer
behind p = p.1

module _ {ℓ} {A : Type ℓ} (state : A → Lexer) (src : List ℕ) (line col : ℕ) where
  pub Ends-trans :
      (a b : Lexer) (r : Result A)
      → Reaches src a b
      → Ends state src b line col r
      → Ends state src a line col r
  Ends-trans a b (ok c) h e = Reaches-trans h e
  Ends-trans a b (err l c p) h e = e
  Ends-trans a b stuck h e = e

module _ {ℓ κ} {A : Type ℓ} {B : Type κ} (state : A → Lexer) (end : B → Lexer) where
  pub Ends-bind :
      (src : List ℕ) (a : Lexer) (line col : ℕ) (r : Result A) (f : A → Result B)
      → Ends state src a line col r
      → ((b : A) → r ≡ ok b → Reaches src a (state b) → Ends end src (state b) line col (f b))
      → Ends end src a line col (r >>= f)
  Ends-bind src a line col (ok b) f h k =
      Ends-trans end src line col a (state b) (f b) h (k b refl h)
  Ends-bind src a line col (err l c p) f h k = h
  Ends-bind src a line col stuck f h k = absurd h

module _ (src : List ℕ) (line col : ℕ) where
  pair-lt :
      (a : Lexer) (c d : ℕ)
      → At src a
      → d ≢ 0
      → (peek a == c && peek_next a == d) ≡ true
      → (a.cur < length src) × ((advance a).cur < length src)
  pair-lt a c d h ne e =
      let next : peek_next a ≡ d = ground arith in
      let lt = peek_next_ne_zero d h next ne in
      (omega (arith, lt), omega (arith, lt, advance-cur a))

  pub advance_twice :
      (a : Lexer) (c d : ℕ)
      → At src a
      → d ≢ 0
      → (peek a == c && peek_next a == d) ≡ true
      → Reaches src a (advance (advance a)) × (a.cur < (advance (advance a)).cur)
  advance_twice a c d h ne e =
      let (lt, lt') = pair-lt a c d h ne e in
      let step = advance-Reaches h lt in
      (
        Reaches-trans step (advance-Reaches step.at lt'),
        omega (arith, advance-cur a, advance-cur (advance a)),
      )

  pub string_body-Ends :
      (f depth : ℕ) (a : Lexer)
      → At src a
      → length src < f + a.cur
      → Ends same src a line col (string_body f depth line col a)
  unfolding string_body
  string_body-Ends zero depth a h lt = absurd (omega (arith, h.within))
  string_body-Ends (suc f) (suc depth) a h lt =
      let P = Ends same src a line col in
      if_case P (is_at_end a) (λ e. Reaches-refl h)
        λ e.
          let step = advance-Reaches h (peek-lt h e) in
          let more : (d : ℕ) → P (string_body f d line col (advance a)) = λ d.
            Ends-trans same src line col a (advance a) _ step
              (string_body-Ends f d (advance a) step.at (omega (arith, advance-cur a))) in
          if_case P (peek a == b'{') (λ _. more (suc (suc depth)))
            λ _. if_case P (peek a == b'}') (λ _. more depth) (λ _. more (suc depth))
  string_body-Ends (suc f) zero a h lt =
      let P = Ends same src a line col in
      let twice =
        λ (d : ℕ) (c : ℕ) (c' : ℕ) (ne : c' ≢ 0) (e : (peek a == c && peek_next a == c') ≡ true).
          let (r, up) = advance_twice a c c' h ne e in
          Ends-trans same src line col a (advance (advance a)) _ r
            (string_body-Ends f d (advance (advance a)) r.at (omega (arith, up))) in
      if_case P (is_at_end a) (λ e. Reaches-refl h)
        λ e.
          if_case P (peek a == 34) (λ _. Reaches-refl h)
            λ _.
              if_case P (peek a == b'\n') (λ _. (refl, refl))
                λ _.
                  if_case P (peek a == b'#' && peek_next a == b'{')
                    (twice 1 b'#' b'{' (omega arith))
                    λ _.
                      if_case P (peek a == b'\\' && peek_next a == 34)
                        (twice 0 b'\\' 34 (omega arith))
                        λ _.
                          let step = advance-Reaches h (peek-lt h e) in
                          Ends-trans same src line col a (advance a) _ step (
                            string_body-Ends f 0 (advance a) step.at (omega (arith, advance-cur a)))

  char_escape-Ends :
      (a b : Lexer) (c : ℕ)
      → Reaches src a b
      → Ends (λ (_ : ℕ). b) src a line col (char_escape line col c)
  unfolding char_escape
  char_escape-Ends a b c h =
      let P = Ends (λ (_ : ℕ). b) src a line col in
      if_case P (c == b'n') (λ _. h)
        λ _.
          if_case P (c == b'r') (λ _. h)
            λ _.
              if_case P (c == b't') (λ _. h)
                λ _.
                  if_case P (c == b'b') (λ _. h)
                    λ _.
                      if_case P (c == b'f') (λ _. h)
                        λ _.
                          if_case P (c == b'\\') (λ _. h)
                            λ _.
                              if_case P (c == 39) (λ _. h)
                                λ _.
                                  if_case P (c == 34) (λ _. h)
                                    λ _. if_case P (c == b'0') (λ _. h) (λ _. (refl, refl))

  pub char_value-Ends :
      (a : Lexer)
      → At src a
      → a.cur < length src
      → Ends behind src a line col (char_value line col a)
  unfolding char_value
  char_value-Ends a h lt =
      let P = Ends behind src a line col in
      let step = advance-Reaches h lt in
      if_case P (peek a == b'\\')
        (λ _.
          if_case P (is_at_end (advance a)) (λ _. (refl, refl))
            λ more.
              Ends-bind (λ (_ : ℕ). advance (advance a)) behind src a line col
                (char_escape line col (current (advance a))) _
                (char_escape-Ends a _ _
                  (Reaches-trans step (advance-Reaches step.at (peek-lt step.at more))))
                (λ v _ r. Reaches-refl r.at))
        (λ _. step)

-- The two laws of Go's `unicode` package that keep the scanner inside the source.
pub record NulIsPlain (u : Unicode) : Type 0 where
  pub nul_digit : u.is_digit 0 ≡ false
  pub nul_letter : u.is_letter 0 ≡ false

module _ (u : Unicode) (nul : NulIsPlain u) (src : List ℕ) where
  module _ (line col : ℕ) where
    number_digits-Ends :
        (f : ℕ) (a : Lexer)
        → At src a
        → length src < f + a.cur
        → Ends same src a line col (number_digits u f line col a)
    unfolding number_digits
    number_digits-Ends zero a h lt = absurd (omega (arith, h.within))
    number_digits-Ends (suc f) a h lt =
        let P = Ends same src a line col in
        let more : a.cur < length src → P (number_digits u f line col (advance a)) = λ up.
          let step = advance-Reaches h up in
          Ends-trans same src line col a (advance a) _ step
            (number_digits-Ends f (advance a) step.at (omega (arith, advance-cur a))) in
        if_case P (u.is_digit (peek a)) (λ e. more (peek_test-lt u.is_digit h nul.nul_digit e))
          λ _.
            if_case P (peek a == b'_')
              (λ e.
                if_case P (not (u.is_digit (peek_next a))) (λ _. (refl, refl))
                  (λ _. more (peek_test-lt (λ c. c == b'_') h refl e)))
              (λ _. Reaches-refl h)

    pub consume_number_digits-Ends :
        (f : ℕ) (leading : Bool) (a : Lexer)
        → At src a
        → length src < f + a.cur
        → Ends same src a line col (consume_number_digits u f leading line col a)
    unfolding consume_number_digits
    consume_number_digits-Ends f leading a h lt =
        let P = Ends same src a line col in
        if_case P (leading && not (u.is_digit (peek a))) (λ _. (refl, refl))
          λ _.
            Ends-bind same same src a line col (number_digits u f line col a) _
              (number_digits-Ends f a h lt)
              (λ b _ r.
                if_case (Ends same src b line col) (get_or b.source (b.cur - 1) 0 == b'_')
                  (λ _. (refl, refl)) (λ _. Reaches-refl r.at))

    pub number_fraction-Ends :
        (f : ℕ) (a : Lexer)
        → At src a
        → length src < f + a.cur
        → Ends behind src a line col (number_fraction u f line col a)
    unfolding number_fraction
    number_fraction-Ends f a h lt =
        if_case (Ends behind src a line col) (peek a == b'.' && u.is_digit (peek_next a))
          (λ e.
            let step = advance-Reaches h (peek_test-lt (λ c. c == b'.') h refl (ground arith)) in
            Ends-trans behind src line col a (advance a) _ step (
              Ends-bind same behind src (advance a) line col
                (consume_number_digits u f true line col (advance a)) _
                (consume_number_digits-Ends f true (advance a) step.at
                  (omega (arith, advance-cur a)))
                (λ b _ r. Reaches-refl r.at)))
          (λ _. Reaches-refl h)

  name-lt : (a : Lexer) → At src a → is_name u (peek a) ≡ true → a.cur < length src
  name-lt a h e = peek_test-lt (is_name u) h (rw (nul.nul_letter, nul.nul_digit)) e

  pub name_end-Reaches : (f : ℕ) (a : Lexer) → At src a → Reaches src a (name_end u f a)
  unfolding name_end
  name_end-Reaches zero a h = Reaches-refl h
  name_end-Reaches (suc f) a h =
      if_case (Reaches src a) (is_name u (peek a))
        (λ e.
          let step = advance-Reaches h (name-lt a h e) in
          Reaches-trans step (name_end-Reaches f (advance a) step.at))
        (λ _. Reaches-refl h)
