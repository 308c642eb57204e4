-- ===== src/Lexer/Ahead.antt =====
-- The characters that the scanner of internal/lexer/lexer.go has still to read, and the state when some of
-- them are read.
use polyloft_bvm.Prelude.{
  ℕ, suc, ◌+◌, ◌≡◌, ◌≢◌, true, false, List, [], ◌∷◌, ◌++◌, length, drop, drop-cons-lt,
  drop-cons-get_or, drop-cons-suc, drop-nil-le, arith,
}
use polyloft_bvm.Lexer.{Lexer, is_at_end, peek, peek_next, current, advance}

-- What the scanner has still to read.
abbrev pub View : Lexer → List ℕ → Type 0
View a s = drop a.cur a.source ≡ s

module _ (a : Lexer) (c : ℕ) (s : List ℕ) (v : View a (c ∷ s)) where
  pub View-at_end : is_at_end a ≡ false
  unfolding is_at_end
  View-at_end = ground (arith, drop-cons-lt a.cur a.source c s v)

  pub View-peek : peek a ≡ c
  unfolding peek
  View-peek = rw View-at_end (drop-cons-get_or a.cur a.source c 0 s v)

  pub View-advance : View (advance a) s
  unfolding advance
  View-advance = ground (arith, drop-cons-suc a.cur a.source c s v)

pub View-peek_next : (a : Lexer) (c d : ℕ) (s : List ℕ) → View a (c ∷ d ∷ s) → peek_next a ≡ d
unfolding peek_next
View-peek_next a c d s v =
    let w = drop-cons-suc a.cur a.source c (d ∷ s) v in
    ground (
      arith,
      drop-cons-lt (a.cur + 1) a.source d s w,
      drop-cons-get_or (a.cur + 1) a.source d 0 s w,
    )

pub View-end : (a : Lexer) → View a [] → is_at_end a ≡ true
unfolding is_at_end
View-end a v = ground (arith, drop-nil-le a.cur a.source v)

-- The state `n` characters later on the same line.
abbrev pub ahead : ℕ → Lexer → Lexer
ahead n a = record a { cur = a.cur + n; col = a.col + n }

pub ahead_zero : (a : Lexer) → ahead 0 a ≡ a
ahead_zero a = ground arith

pub ahead-ahead : (m n : ℕ) (a : Lexer) → ahead n (ahead m a) ≡ ahead (m + n) a
ahead-ahead m n a = ground arith

pub View-current : (a : Lexer) (c : ℕ) (s : List ℕ) → View a (c ∷ s) → current a ≡ c
unfolding current
View-current a c s v = drop-cons-get_or a.cur a.source c 0 s v

pub advance-ahead :
    (a : Lexer) (c : ℕ) (s : List ℕ) → View a (c ∷ s) → c ≢ b'\n' → advance a ≡ ahead 1 a
unfolding advance
advance-ahead a c s v ne = ground (arith, View-current a c s v)

pub View-ahead : (a : Lexer) (c : ℕ) (s : List ℕ) → View a (c ∷ s) → View (ahead 1 a) s
View-ahead a c s v = drop-cons-suc a.cur a.source c s v

pub View-twice : (a : Lexer) (c d : ℕ) (s : List ℕ) → View a (c ∷ d ∷ s) → View (ahead 2 a) s
View-twice a c d s v =
    let w = View-ahead (ahead 1 a) d s (View-ahead a c (d ∷ s) v) in
    let q : a.cur + 1 + 1 ≡ a.cur + 2 = omega arith in rw q at w

pub View-prefix : (a : Lexer) (t s : List ℕ) → View a (t ++ s) → View (ahead (length t) a) s
View-prefix a [] s v = let q : a.cur + 0 ≡ a.cur = omega arith in rw q v
View-prefix a (c ∷ t) s v =
    let w = View-prefix (ahead 1 a) t s (View-ahead a c (t ++ s) v) in
    let q : a.cur + 1 + length t ≡ a.cur + suc (length t) = omega arith in rw q at w
