-- ===== src/Lexer/Quoted.antt =====
-- internal/lexer/lexer.go: `scanString` on the escaped form of a text between quotes.
use polyloft_bvm.Prelude.{
  ℕ, zero, suc, ◌+◌, ◌-◌, ◌≤◌, ◌<◌, ◌≡◌, ◌≢◌, refl, ap, ◌∙◌, List, [], ◌∷◌, ◌++◌, append_assoc,
  length, length-append, take_prefix, arith, ◌==◌, if_case, ==_iff,
}
use polyloft_bvm.Token.{TokenType}
use polyloft_bvm.Lexer.{Unicode, Lexer, ok, advance, push_item}
use polyloft_bvm.Lexer.Ahead.{
  View, View-at_end, View-peek, View-prefix, ahead, ahead_zero, ahead-ahead, advance-ahead,
  View-ahead, View-current,
}
use polyloft_bvm.Lexer.Literals.{string_body, close_string, scan_string}
use polyloft_bvm.Lexer.Escapes.{
  escape_one, escape, unescape-escape, string_body_plain, string_body_skip, string_body_quote,
}
use polyloft_bvm.Lexer.Scan.{scan_character, scan_token}

-- A text that the scanner can read back: no interpolation begins in it, and it does not end in a backslash.
abbrev pub IsQuotable : List ℕ → Type 0
IsQuotable [] = Unit {0}
IsQuotable (c ∷ []) = (c ≢ b'#') × (c ≢ b'\\')
IsQuotable (c ∷ d ∷ ds) = (c ≢ b'#') × IsQuotable (d ∷ ds)

-- The loop of `scanString` reads `n` characters, with fuel left.
abbrev Reads : ℕ → ℕ → ℕ → ℕ → Lexer → Type 0
Reads n f line col a =
    (g : ℕ) × (f ≤ g + n) × (string_body f 0 line col a ≡ string_body g 0 line col (ahead n a))

module _ (line col : ℕ) where
  reads_plain :
      (f : ℕ) (a : Lexer) (c : ℕ) (s : List ℕ)
      → View a (c ∷ s)
      → c ≢ 34
      → c ≢ b'\n'
      → c ≢ b'#'
      → c ≢ b'\\'
      → Reads 1 (suc f) line col a
  reads_plain f a c s v h1 h2 h3 h4 = (
    f,
    omega arith,
    string_body_plain f line col a c s v (h1, h2, h3, h4)
        ∙ ap (string_body f 0 line col) (advance-ahead a c s v h2),
  )

  reads_pair :
      (f : ℕ) (a : Lexer) (d : ℕ) (s : List ℕ)
      → View a (b'\\' ∷ d ∷ s)
      → d ≢ 34
      → d ≢ b'\n'
      → d ≢ b'#'
      → d ≢ b'\\'
      → Reads 2 (suc (suc f)) line col a
  reads_pair f a d s v h1 h2 h3 h4 =
      let w : View (ahead 1 a) (d ∷ s) = View-ahead a b'\\' (d ∷ s) v in
      (
        f,
        omega arith,
        string_body_skip (suc f) line col a d s v h1
            ∙ ap (string_body (suc f) 0 line col) (advance-ahead a b'\\' (d ∷ s) v (omega arith))
            ∙ string_body_plain f line col (ahead 1 a) d s w (h1, h2, h3, h4)
            ∙ ap (string_body f 0 line col)
                (advance-ahead (ahead 1 a) d s w h2 ∙ ahead-ahead 1 1 a),
      )

  reads_quote :
      (f : ℕ) (a : Lexer) (s : List ℕ) → View a (b'\\' ∷ 34 ∷ s) → Reads 2 (suc f) line col a
  reads_quote f a s v =
      let w : View (ahead 1 a) (34 ∷ s) = View-ahead a b'\\' (34 ∷ s) v in
      (
        f,
        omega arith,
        string_body_quote f line col a s v
            ∙ ap (λ b. string_body f 0 line col (advance b))
                (advance-ahead a b'\\' (34 ∷ s) v (omega arith))
            ∙ ap (string_body f 0 line col)
                (advance-ahead (ahead 1 a) 34 s w (omega arith) ∙ ahead-ahead 1 1 a),
      )

  -- A backslash in the text, before a character that is no quote.
  reads_backslash :
      (f : ℕ) (a : Lexer) (d : ℕ) (s : List ℕ)
      → View a (b'\\' ∷ b'\\' ∷ d ∷ s)
      → d ≢ 34
      → Reads 2 (suc (suc f)) line col a
  reads_backslash f a d s v ne =
      let w : View (ahead 1 a) (b'\\' ∷ d ∷ s) = View-ahead a b'\\' (b'\\' ∷ d ∷ s) v in
      (
        f,
        omega arith,
        string_body_skip (suc f) line col a b'\\' (d ∷ s) v (omega arith)
            ∙ ap (string_body (suc f) 0 line col)
                (advance-ahead a b'\\' (b'\\' ∷ d ∷ s) v (omega arith))
            ∙ string_body_skip f line col (ahead 1 a) d s w ne
            ∙ ap (string_body f 0 line col)
                (advance-ahead (ahead 1 a) b'\\' (d ∷ s) w (omega arith) ∙ ahead-ahead 1 1 a),
      )

  -- The escaped form of one character, before a text that begins with `d`.
  reads_one :
      (f : ℕ) (a : Lexer) (c d : ℕ) (s : List ℕ)
      → View a (escape_one c ++ d ∷ s)
      → c ≢ b'#'
      → (c ≡ b'\\' → d ≢ 34)
      → Reads (length (escape_one c)) (suc (suc f)) line col a
  reads_one f a c d s v h k =
      let P : List ℕ → Type 0 =
        λ t. View a (t ++ d ∷ s) → Reads (length t) (suc (suc f)) line col a in
      let pair : (e : ℕ) → e ≢ 34 → e ≢ b'\n' → e ≢ b'#' → e ≢ b'\\' → P (b'\\' ∷ e ∷ []) =
        λ e h1 h2 h3 h4 w. reads_pair f a e (d ∷ s) w h1 h2 h3 h4 in
      if_case P (c == b'\n')
        (λ t. pair b'n' (omega arith) (omega arith) (omega arith) (omega arith))
        (λ e1.
          if_case P (c == b'\r')
            (λ t. pair b'r' (omega arith) (omega arith) (omega arith) (omega arith))
            (λ e2.
              if_case P (c == b'\t')
                (λ t. pair b't' (omega arith) (omega arith) (omega arith) (omega arith))
                (λ e3.
                  if_case P (c == b'\\')
                    (λ t w. reads_backslash f a d s w (k ((==_iff c b'\\').0 t)))
                    (λ e4.
                      if_case P (c == 34) (λ t w. reads_quote (suc f) a (d ∷ s) w)
                        (λ e5 w.
                          reads_plain (suc f) a c (d ∷ s) w (ground (arith, e5))
                            (ground (arith, e1)) h (ground (arith, e4)))))))
        v

escape_one_head : (c : ℕ) → (e : ℕ) × (t : List ℕ) × (escape_one c ≡ e ∷ t) × (e ≢ 34)
escape_one_head c =
    let P : List ℕ → Type 0 = λ u. (e : ℕ) × (t : List ℕ) × (u ≡ e ∷ t) × (e ≢ 34) in
    let pair : (e : ℕ) → P (b'\\' ∷ e ∷ []) = λ e. (b'\\', e ∷ [], refl, omega arith) in
    if_case P (c == b'\n') (λ t. pair b'n')
      (λ e1.
        if_case P (c == b'\r') (λ t. pair b'r')
          (λ e2.
            if_case P (c == b'\t') (λ t. pair b't')
              (λ e3.
                if_case P (c == b'\\') (λ t. pair b'\\')
                  (λ e4.
                    if_case P (c == 34) (λ t. pair 34) (λ e5. (c, [], refl, ground (arith, e5)))))))

escape_one_pos : (c : ℕ) → 1 ≤ length (escape_one c)
escape_one_pos c = let (e, t, q, ne) = escape_one_head c in rw q (omega arith)

-- What follows a character of a text that can be read back.
escape_head :
    (c : ℕ) (cs rest : List ℕ)
    → IsQuotable (c ∷ cs)
    → (d : ℕ) × (s : List ℕ) × (escape cs ++ 34 ∷ rest ≡ d ∷ s) × (c ≡ b'\\' → d ≢ 34)
escape_head c [] rest q = (34, rest, refl, λ e. absurd (q.1 e))
escape_head c (x ∷ xs) rest q =
    let (d, t, e, ne) = escape_one_head x in (d, (t ++ escape xs) ++ 34 ∷ rest, rw e refl, λ w. ne)

IsQuotable-tail : (c : ℕ) (cs : List ℕ) → IsQuotable (c ∷ cs) → (c ≢ b'#') × IsQuotable cs
IsQuotable-tail c [] q = (q.0, tt)
IsQuotable-tail c (x ∷ xs) q = q

string_body-escape :
    (cs rest : List ℕ) (f line col : ℕ) (a : Lexer)
    → View a (escape cs ++ 34 ∷ rest)
    → IsQuotable cs
    → length (escape cs) < f
    → string_body f 0 line col a ≡ ok (ahead (length (escape cs)) a)
unfolding string_body
string_body-escape [] rest zero line col a v q h = absurd (omega arith)
string_body-escape [] rest (suc f) line col a v q h =
    rw (View-at_end a 34 rest v, View-peek a 34 rest v, ahead_zero a) refl
string_body-escape (c ∷ cs) rest f line col a v q h =
    let n = length (escape_one c) in
    let all : length (escape_one c ++ escape cs) ≡ n + length (escape cs) =
      length-append (escape_one c) (escape cs) in
    let w : View a (escape_one c ++ (escape cs ++ 34 ∷ rest)) =
      v ∙ append_assoc (escape_one c) (escape cs) (34 ∷ rest) in
    let (d, s, e, ne) = escape_head c cs rest q in
    let two : (k : ℕ) × (f ≡ suc (suc k)) = (f - 2, omega (arith, escape_one_pos c, all, h)) in
    let (g, le, r) =
      reads_one line col two.0 a c d s (w ∙ ap (λ x. escape_one c ++ x) e)
        (IsQuotable-tail c cs q).0 ne in
    ap (λ k. string_body k 0 line col a) two.1
    ∙ r
    ∙ string_body-escape cs rest g line col (ahead n a)
        (View-prefix a (escape_one c) (escape cs ++ 34 ∷ rest) w) (IsQuotable-tail c cs q).1
        (omega (arith, le, all, h, two.1))
    ∙ ap ok (ahead-ahead n (length (escape cs)) a)
    ∙ ap (λ k. ok (ahead k a)) (omega (arith, all))

-- The scanner reads the escaped form of a text between quotes as one string token of that text, at the place of the
-- first quote, and stands behind the second one. In the text no `#` occurs, so no interpolation, and its last
-- character is no backslash; the fuel is more than the length of the escaped form.
pub scan_token-escape :
    (u : Unicode) (f : ℕ) (text rest : List ℕ) (a : Lexer)
    → View a (34 ∷ (escape text ++ 34 ∷ rest))
    → IsQuotable text
    → length (escape text) < f
    → scan_token u f a
      ≡ ok (
          push_item TokenType.string text a.line a.col
            (record (ahead (2 + length (escape text)) a) { start = a.cur }))
unfolding scan_token scan_character scan_string close_string push_item
scan_token-escape u f text rest a v q h =
    let b : Lexer = record a { start = a.cur } in
    let n = length (escape text) in
    let w : View (ahead 1 b) (escape text ++ 34 ∷ rest) =
      View-ahead b 34 (escape text ++ 34 ∷ rest) v in
    let z : View (ahead n (ahead 1 b)) (34 ∷ rest) =
      View-prefix (ahead 1 b) (escape text) (34 ∷ rest) w in
    let far : a.cur + 1 + n + 1 ≡ a.cur + (2 + n) = omega arith in
    let wide : a.col + 1 + n + 1 ≡ a.col + (2 + n) = omega arith in
    let width : a.cur + (2 + n) - 1 - (a.cur + 1) ≡ n = omega arith in
    rw
      (
        View-current a 34 (escape text ++ 34 ∷ rest) v,
        advance-ahead b 34 (escape text ++ 34 ∷ rest) v (omega arith),
        string_body-escape text rest f a.line a.col (ahead 1 b) w q h,
        View-at_end (ahead n (ahead 1 b)) 34 rest z,
        advance-ahead (ahead n (ahead 1 b)) 34 rest z (omega arith),
        far,
        wide,
        width,
        w,
        take_prefix (escape text) (34 ∷ rest),
        unescape-escape text,
      )
      refl
