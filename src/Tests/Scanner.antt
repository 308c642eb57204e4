-- ===== src/Tests/Scanner.antt =====
-- The scanner on concrete sources.
use polyloft_bvm.Prelude.{ℕ, ◌+◌, true, ◌&&◌, ◌||◌, List, [], ◌∷◌, ◌++◌, ◌≡◌, refl, leb, arith}
use polyloft_bvm.Token.{TokenType, codes}
use polyloft_bvm.Lexer.{Unicode, ok, err, Problem, push_item}
use polyloft_bvm.Lexer.Scan.{initial, scan_token, scan}
use polyloft_bvm.Lexer.Ends.{NulIsPlain}
use polyloft_bvm.Lexer.Layout.{Scanned, scan-Scanned}
use polyloft_bvm.Lexer.Comments.{scan_token_comment}
use polyloft_bvm.Lexer.Ahead.{ahead}
use polyloft_bvm.Lexer.Quoted.{scan_token-escape}
use polyloft_bvm.Lexer.Escapes.{escape, string_tail, scan_final_backslash}

abbrev ascii : Unicode
ascii = record {
  is_digit = λ c. leb 48 c && leb c 57;
  is_letter = λ c. (leb 65 c && leb c 90) || (leb 97 c && leb c 122);
  parse_float = λ s. true;
}

ascii-NulIsPlain : NulIsPlain ascii
ascii-NulIsPlain = record { nul_digit = refl; nul_letter = refl }

abbrev statement : List ℕ
statement = codes "let x = 1.5 // one\nx += \"a\""

scan-Scanned_example : Scanned statement (scan ascii statement)
scan-Scanned_example = scan-Scanned ascii ascii-NulIsPlain statement

-- `ab` is the comment.
abbrev comment : List ℕ
comment = b'/' ∷ b'/' ∷ (97 ∷ 98 ∷ [] ++ b'\n' ∷ 120 ∷ [])

scan_token_comment_example :
    scan_token ascii 10 (initial comment)
    ≡ ok (record (ahead (2 + 2) (initial comment)) { start = 0 })
scan_token_comment_example =
    scan_token_comment ascii 10 (97 ∷ 98 ∷ []) (b'\n' ∷ 120 ∷ []) (initial comment) refl
      (λ e. omega (arith, e), (λ e. omega (arith, e), tt)) refl (omega arith)

-- A backslash, an `a` and a quote.
abbrev quoted : List ℕ
quoted = b'\\' ∷ 97 ∷ 34 ∷ []

abbrev literal : List ℕ
literal = 34 ∷ (escape quoted ++ 34 ∷ 59 ∷ [])

scan_token-escape_example :
    scan_token ascii 10 (initial literal)
    ≡ ok (
        push_item TokenType.string quoted 1 1
          (record (ahead (2 + 5) (initial literal)) { start = 0 }))
scan_token-escape_example =
    scan_token-escape ascii 10 quoted (59 ∷ []) (initial literal) refl
      (
        λ e. omega (arith, e),
        (λ e. omega (arith, e), (λ e. omega (arith, e), λ e. omega (arith, e))),
      )
      (omega arith)

abbrev letters : List ℕ
letters = 97 ∷ 98 ∷ []

scan_final_backslash_example :
    scan ascii (34 ∷ (letters ++ string_tail)) ≡ err 1 1 Problem.unterminated_string
scan_final_backslash_example = scan_final_backslash ascii letters (
  (λ e. omega (arith, e), λ e. omega (arith, e), λ e. omega (arith, e), λ e. omega (arith, e)),
  (
    (λ e. omega (arith, e), λ e. omega (arith, e), λ e. omega (arith, e), λ e. omega (arith, e)),
    tt,
  ),
)
