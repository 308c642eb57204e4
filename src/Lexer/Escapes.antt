-- ===== src/Lexer/Escapes.antt =====
-- The escapes of a string literal, and the quote that ends it.
use polyloft_bvm.Prelude.{
  ℕ, zero, suc, ◌+◌, ◌<◌, ◌≡◌, ◌≢◌, refl, ap, ◌∙◌, true, List, [], ◌∷◌, ◌++◌, length, length-append,
  All, arith, if◌then◌else◌, ◌==◌,
}
use polyloft_bvm.Lexer.{Unicode, Lexer, Problem, ok, err, is_at_end, current, advance}
use polyloft_bvm.Lexer.Ahead.{View, View-at_end, View-peek, View-advance, View-peek_next, View-end}
use polyloft_bvm.Lexer.Literals.{unescape_one, unescape, string_body, close_string, scan_string}
use polyloft_bvm.Lexer.Scan.{initial, scan_character, scan_token, scan_tokens, scan}

-- How a text is written in a literal: a newline, a carriage return, a tab, a backslash and a quote
-- take a backslash.
abbrev pub escape_one : ℕ → List ℕ
escape_one c =
    if c == b'\n'
    then b'\\' ∷ b'n' ∷ []
    else if c == b'\r'
    then b'\\' ∷ b'r' ∷ []
    else if c == b'\t'
    then b'\\' ∷ b't' ∷ []
    else if c == b'\\'
    then b'\\' ∷ b'\\' ∷ []
    else if c == 34
    then b'\\' ∷ 34 ∷ []
    else c ∷ []

abbrev pub escape : List ℕ → List ℕ
escape [] = []
escape (c ∷ cs) = escape_one c ++ escape cs

unescape_plain : (c : ℕ) (cs : List ℕ) → c ≢ b'\\' → unescape (c ∷ cs) ≡ c ∷ unescape cs
unfolding unescape
unescape_plain c [] h = refl
unescape_plain c (d ∷ cs) h = ground arith

unescape_pair : (d : ℕ) (cs : List ℕ) → unescape (b'\\' ∷ d ∷ cs) ≡ unescape_one d ++ unescape cs
unfolding unescape
unescape_pair d cs = refl

unescape-escape_one : (c : ℕ) (cs : List ℕ) → unescape (escape_one c ++ cs) ≡ c ∷ unescape cs
unfolding unescape_one
unescape-escape_one c cs = ground (
  arith,
  unescape_pair b'n' cs,
  unescape_pair b'r' cs,
  unescape_pair b't' cs,
  unescape_pair b'\\' cs,
  unescape_pair 34 cs,
  unescape_plain c cs,
)

-- What `scanString` makes of the escaped form.
pub unescape-escape : (cs : List ℕ) → unescape (escape cs) ≡ cs
unescape-escape [] = unfold unescape in refl
unescape-escape (c ∷ cs) = unescape-escape_one c (escape cs) ∙ ap (◌∷◌ c) (unescape-escape cs)

-- A character that `scanString` and the escapes leave alone.
abbrev pub PlainText : ℕ → Type 0
PlainText c = (c ≢ 34) × (c ≢ b'\n') × (c ≢ b'#') × (c ≢ b'\\')

pub string_body_plain :
    (f line col : ℕ) (a : Lexer) (c : ℕ) (s : List ℕ)
    → View a (c ∷ s)
    → PlainText c
    → string_body (suc f) 0 line col a ≡ string_body f 0 line col (advance a)
unfolding string_body
string_body_plain f line col a c s v p = rw (View-at_end a c s v, View-peek a c s v) (ground arith)

pub string_body_skip :
    (f line col : ℕ) (a : Lexer) (d : ℕ) (s : List ℕ)
    → View a (b'\\' ∷ d ∷ s)
    → d ≢ 34
    → string_body (suc f) 0 line col a ≡ string_body f 0 line col (advance a)
unfolding string_body
string_body_skip f line col a d s v ne =
    rw (View-at_end a b'\\' (d ∷ s) v, View-peek a b'\\' (d ∷ s) v)
      (ground (arith, View-peek_next a b'\\' d s v))

pub string_body_quote :
    (f line col : ℕ) (a : Lexer) (s : List ℕ)
    → View a (b'\\' ∷ 34 ∷ s)
    → string_body (suc f) 0 line col a ≡ string_body f 0 line col (advance (advance a))
unfolding string_body
string_body_quote f line col a s v =
    rw (View-at_end a b'\\' (34 ∷ s) v, View-peek a b'\\' (34 ∷ s) v)
      (ground (arith, View-peek_next a b'\\' 34 s v))

string_body_end : (f line col : ℕ) (a : Lexer) → View a [] → string_body (suc f) 0 line col a ≡ ok a
unfolding string_body
string_body_end f line col a v = rw (View-end a v)

abbrev pub string_tail : List ℕ
string_tail = b'\\' ∷ b'\\' ∷ 34 ∷ []

-- The second backslash is read together with the quote, and the source ends.
string_body_final :
    (body : List ℕ) (f line col : ℕ) (a : Lexer)
    → All PlainText body
    → View a (body ++ string_tail)
    → length body + 2 < f
    → (b : Lexer) × (string_body f 0 line col a ≡ ok b) × (is_at_end b ≡ true)
string_body_final [] (suc (suc (suc f))) line col a p v h =
    let v₁ = View-advance a _ _ v in
    let v₂ = View-advance (advance a) _ _ v₁ in
    let v₃ = View-advance (advance (advance a)) _ _ v₂ in
    (
      advance (advance (advance a)),
      string_body_skip (suc (suc f)) line col a b'\\' _ v (omega arith)
          ∙ string_body_quote (suc f) line col (advance a) _ v₁
          ∙ string_body_end f line col _ v₃,
      View-end _ v₃,
    )
string_body_final [] _ line col a p v h = absurd (omega arith)
string_body_final (c ∷ cs) zero line col a p v h = absurd (omega arith)
string_body_final (c ∷ cs) (suc f) line col a p v h =
    let (b, e, end) =
      string_body_final cs f line col (advance a) p.1 (View-advance a c _ v) (omega arith) in
    (b, string_body_plain f line col a c _ v p.0 ∙ e, end)

scan_string_final :
    (body : List ℕ) (f line col : ℕ) (a : Lexer)
    → All PlainText body
    → View a (body ++ string_tail)
    → length body + 2 < f
    → scan_string f line col a ≡ err line col Problem.unterminated_string
unfolding scan_string close_string
scan_string_final body f line col a p v h =
    let (b, e, end) = string_body_final body f line col a p v h in rw (e, end)

-- `Scan` refuses the literal of every text that ends in a backslash, though it is escaped as the other
-- backslashes are: the text is plain characters and one backslash at its end.
pub scan_final_backslash :
    (u : Unicode) (text : List ℕ)
    → All PlainText text
    → scan u (34 ∷ (text ++ string_tail)) ≡ err 1 1 Problem.unterminated_string
unfolding scan scan_tokens scan_token scan_character current
scan_final_backslash u text p =
    let begun = initial (34 ∷ (text ++ string_tail)) in
    rw (
      View-at_end begun 34 (text ++ string_tail) refl,
      scan_string_final text (suc (suc (length (text ++ string_tail)))) 1 1 (advance begun) p
          (View-advance begun 34 (text ++ string_tail) refl)
          (omega (arith, length-append text string_tail)),
    )
