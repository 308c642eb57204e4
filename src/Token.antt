-- ===== src/Token.antt =====
-- internal/token/token.go: token types, tokens and the keyword table. A lexeme is the list of the
-- code points that the Go string spells.
use Prim.Native.Char.{code}
use Prim.Native.String.{String}
use polyloft_bvm.Prelude.{ℕ, List, [], ◌∷◌, same_text, if◌then◌else◌}

-- The constants of `token.Type`; the keywords have the suffix that Go gives to `LoopKw`.
pub data TokenType : Type 0 where
  eof newline identifier int_number float_number char string : TokenType
  left_paren right_paren left_bracket right_bracket left_brace right_brace comma : TokenType
  colon dot question ampersand pipe at_sign arrow : TokenType
  fat_arrow plus plus_equal minus minus_equal star star_star : TokenType
  star_equal slash slash_equal percent caret bang equal : TokenType
  equal_equal bang_equal and_and or_or greater greater_equal less : TokenType
  less_equal let_kw var_kw const_kw final_kw enum_kw def_kw : TokenType
  native_kw import_kw record_kw abstract_kw sealed_kw interface_kw class_kw : TokenType
  extends_kw implements_kw static_kw public_kw private_kw protected_kw new_kw : TokenType
  this_kw super_kw if_kw else_kw elif_kw switch_kw case_kw : TokenType
  default_kw end_kw return_kw try_kw catch_kw throw_kw for_kw : TokenType
  loop_kw do_kw break_kw continue_kw in_kw type_kw where_kw : TokenType
  instanceof_kw true_kw false_kw nil_kw thread_kw spawn_kw ellipsis : TokenType

pub record Token : Type 0 where
  pub type : TokenType
  pub lexeme : List ℕ
  pub line : ℕ
  pub column : ℕ

abbrev pub codes : String → List ℕ
codes String.[] = []
codes (String.◌∷◌ c s) = code c ∷ codes s

abbrev pub Keyword : Type 0
Keyword = String × TokenType

-- The map `keywords`, in the order of the source.
unfoldable pub keywords : List Keyword
keywords =
    ("let", TokenType.let_kw)
    ∷ ("var", TokenType.var_kw)
    ∷ ("const", TokenType.const_kw)
    ∷ ("final", TokenType.final_kw)
    ∷ ("enum", TokenType.enum_kw)
    ∷ ("def", TokenType.def_kw)
    ∷ ("native", TokenType.native_kw)
    ∷ ("import", TokenType.import_kw)
    ∷ ("record", TokenType.record_kw)
    ∷ ("abstract", TokenType.abstract_kw)
    ∷ ("sealed", TokenType.sealed_kw)
    ∷ ("interface", TokenType.interface_kw)
    ∷ ("class", TokenType.class_kw)
    ∷ ("extends", TokenType.extends_kw)
    ∷ ("implements", TokenType.implements_kw)
    ∷ ("static", TokenType.static_kw)
    ∷ ("public", TokenType.public_kw)
    ∷ ("pub", TokenType.public_kw)
    ∷ ("private", TokenType.private_kw)
    ∷ ("priv", TokenType.private_kw)
    ∷ ("protected", TokenType.protected_kw)
    ∷ ("prot", TokenType.protected_kw)
    ∷ ("new", TokenType.new_kw)
    ∷ ("this", TokenType.this_kw)
    ∷ ("super", TokenType.super_kw)
    ∷ ("if", TokenType.if_kw)
    ∷ ("else", TokenType.else_kw)
    ∷ ("elif", TokenType.elif_kw)
    ∷ ("switch", TokenType.switch_kw)
    ∷ ("case", TokenType.case_kw)
    ∷ ("default", TokenType.default_kw)
    ∷ ("end", TokenType.end_kw)
    ∷ ("return", TokenType.return_kw)
    ∷ ("try", TokenType.try_kw)
    ∷ ("catch", TokenType.catch_kw)
    ∷ ("throw", TokenType.throw_kw)
    ∷ ("for", TokenType.for_kw)
    ∷ ("loop", TokenType.loop_kw)
    ∷ ("do", TokenType.do_kw)
    ∷ ("break", TokenType.break_kw)
    ∷ ("continue", TokenType.continue_kw)
    ∷ ("in", TokenType.in_kw)
    ∷ ("type", TokenType.type_kw)
    ∷ ("where", TokenType.where_kw)
    ∷ ("instanceof", TokenType.instanceof_kw)
    ∷ ("true", TokenType.true_kw)
    ∷ ("false", TokenType.false_kw)
    ∷ ("nil", TokenType.nil_kw)
    ∷ ("thread", TokenType.thread_kw)
    ∷ ("spawn", TokenType.spawn_kw)
    ∷ []

unfoldable pub lookup_keyword : List Keyword → List ℕ → TokenType
lookup_keyword [] lit = TokenType.identifier
lookup_keyword ((k, t) ∷ rest) lit = if same_text (codes k) lit then t else lookup_keyword rest lit

-- `LookupIdentifier`.
unfoldable pub lookup_identifier : List ℕ → TokenType
unfolding lookup_keyword keywords
lookup_identifier lit = lookup_keyword keywords lit
