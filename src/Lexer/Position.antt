-- ===== src/Lexer/Position.antt =====
-- Lines and columns as a function of the source alone, and what each move of the scanner keeps.
use polyloft_bvm.Prelude.{
  ℕ, zero, suc, ◌+◌, ◌≤◌, ◌<◌, ◌≡◌, ◌≢◌, refl, ap, ◌∙◌, Bool, true, false, List, [], ◌∷◌, ◌==◌,
  if◌then◌else◌, length, get_or, arith, Bool-cases, inl, inr,
}
use polyloft_bvm.Lexer.{Lexer, is_at_end, peek, peek_next, advance, matches, consume}

-- The line and column behind one character.
abbrev pub next_place : ℕ → ℕ × ℕ → ℕ × ℕ
next_place c p = if c == b'\n' then (p.0 + 1, 1) else (p.0, p.1 + 1)

-- The line and column of the offset `n`, counted from a first place.
unfoldable pub place : List ℕ → ℕ → ℕ × ℕ → ℕ × ℕ
place [] n p = p
place (c ∷ cs) zero p = p
place (c ∷ cs) (suc n) p = place cs n (next_place c p)

pub place_zero : (src : List ℕ) (p : ℕ × ℕ) → place src 0 p ≡ p
unfolding place
place_zero [] p = refl
place_zero (c ∷ cs) p = refl

abbrev pub first_place : ℕ × ℕ
first_place = (1, 1)

pub place_suc :
    (src : List ℕ) (n : ℕ) (p : ℕ × ℕ)
    → n < length src
    → place src (n + 1) p ≡ next_place (get_or src n 0) (place src n p)
unfolding place
place_suc [] n p h = elim h [ ]
place_suc (c ∷ []) zero p h = refl
place_suc (c ∷ d ∷ cs) zero p h = refl
place_suc (c ∷ cs) (suc n) p h =
    let e : suc n + 1 ≡ suc (n + 1) = omega arith in
    rw e (place_suc cs n (next_place c p) (omega arith))

-- The scanner stands inside the source, with the right line and column.
pub record At (src : List ℕ) (lx : Lexer) : Type 0 where
  pub source_is : lx.source ≡ src
  pub within : lx.cur ≤ length src
  pub placed : place src lx.cur first_place ≡ (lx.line, lx.col)

-- `b` is reached from `a` by consuming characters alone.
pub record Reaches (src : List ℕ) (a b : Lexer) : Type 0 where
  pub at : At src b
  pub forward : a.cur ≤ b.cur
  pub start_is : b.start ≡ a.start
  pub items_are : b.items ≡ a.items

pub Reaches-refl : {src : List ℕ} {a : Lexer} → At src a → Reaches src a a
Reaches-refl h = record { at = h; forward = omega arith; start_is = refl; items_are = refl }

pub Reaches-trans :
    {src : List ℕ} {a b c : Lexer} → Reaches src a b → Reaches src b c → Reaches src a c
Reaches-trans r s = record {
  at = s.at;
  forward = omega (arith, r.forward, s.forward);
  start_is = s.start_is ∙ r.start_is;
  items_are = s.items_are ∙ r.items_are;
}

pub advance-cur : (a : Lexer) → (advance a).cur ≡ a.cur + 1
unfolding advance
advance-cur a = ground arith

pub advance-Reaches :
    {src : List ℕ} {a : Lexer} → At src a → a.cur < length src → Reaches src a (advance a)
unfolding advance
advance-Reaches {src} {a} h lt = ground (arith, place_suc src a.cur first_place lt)

-- `match` skips no newline, so it need not count lines.
pub consume-Reaches :
    {src : List ℕ} {a : Lexer} (c : ℕ)
    → At src a
    → c ≢ b'\n'
    → matches c a ≡ true
    → Reaches src a (consume a)
unfolding consume matches
consume-Reaches {src} {a} c h ne m = ground (arith, place_suc src a.cur first_place)

pub peek-lt : {src : List ℕ} {a : Lexer} → At src a → is_at_end a ≡ false → a.cur < length src
unfolding is_at_end
peek-lt h e = ground arith

pub peek_ne_zero :
    {src : List ℕ} {a : Lexer} (c : ℕ) → At src a → peek a ≡ c → c ≢ 0 → a.cur < length src
unfolding peek
peek_ne_zero c h e n = ground arith

pub peek_next_ne_zero :
    {src : List ℕ} {a : Lexer} (c : ℕ) → At src a → peek_next a ≡ c → c ≢ 0 → a.cur + 1 < length src
unfolding peek_next
peek_next_ne_zero c h e n = ground arith

-- A test that U+0000 fails does not pass at the end of the source, where `peek` answers 0.
pub peek_test-lt :
    {src : List ℕ} {a : Lexer} (t : ℕ → Bool)
    → At src a
    → t 0 ≡ false
    → t (peek a) ≡ true
    → a.cur < length src
peek_test-lt {src} {a} t h z e = elim (Bool-cases (is_at_end a)) [
  | inl end ↦ let p : peek a ≡ 0 = unfold peek in rw end in absurd (cc (ap t p, z, e))
  | inr more ↦ peek-lt h more
]
