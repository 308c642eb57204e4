-- ===== src/ClassFile/Pool/Requests.antt =====
-- The requests to `cpBuilder`, and the entries that answer them.
use polyloft_bvm.Prelude.{
  ℕ, zero, suc, ◌<◌, ◌≤◌, ◌≡◌, refl, ap, ◌∙◌, sym, List, [], ◌∷◌, ◌++◌, Option, none, some, Text,
  length, get_elem?, arith,
}
use polyloft_bvm.Prelude.Word.{IsU32, IsU64}
use polyloft_bvm.Binary.{ok}
use polyloft_bvm.ClassFile.Wire.Reads.{Short16}
use polyloft_bvm.ClassFile.Pool.{
  Entry, utf8, integer, float, long, double, class_ref, string_ref, reserved, Pool, set_text,
  set_word, pool_utf8, attribute_name, pool_string, pool_class, pool_int32, pool_int64,
  pool_float64, entry, present, as_utf8, as_class, as_string, as_int32, as_int64, as_float64,
  read_pool_utf8, read_pool_class, read_pool_string, read_pool_int32, read_pool_int64,
  read_pool_float64,
}
use polyloft_bvm.ClassFile.Pool.Entries.{FitsEntry}

get_elem?-append {ℓ} :
    {A : Type ℓ} (xs ys : List A) (i : ℕ) (x : A)
    → get_elem? xs i ≡ some x
    → get_elem? (xs ++ ys) i ≡ some x
get_elem?-append [] ys i x h = absurd (cc)
get_elem?-append (z ∷ xs) ys zero x h = h
get_elem?-append (z ∷ xs) ys (suc i) x h = get_elem?-append xs ys i x h

pub get_elem?-middle {ℓ} :
    {A : Type ℓ} (xs ys : List A) (x : A) → get_elem? (xs ++ x ∷ ys) (length xs) ≡ some x
get_elem?-middle [] ys x = refl
get_elem?-middle (z ∷ xs) ys x = get_elem?-middle xs ys x

present_found : (i : ℕ) (o : Option Entry) (e : Entry) → present i o ≡ ok e → o ≡ some e
present_found i none e h = absurd (cc)
present_found i (some reserved) e h = absurd (cc)
present_found i (some (utf8 v)) e h = cc
present_found i (some (integer v)) e h = cc
present_found i (some (float v)) e h = cc
present_found i (some (long v)) e h = cc
present_found i (some (double v)) e h = cc
present_found i (some (class_ref v)) e h = cc
present_found i (some (string_ref v)) e h = cc

-- An entry stays where it is as the pool grows.
pub entry_grows :
    (es more : List Entry) (i : ℕ) (e : Entry) → entry es i ≡ ok e → entry (es ++ more) i ≡ ok e
entry_grows es more zero e h = absurd (cc)
entry_grows es more (suc i) e h =
    let here = present_found (suc i) (get_elem? es i) e h in
    ap (present (suc i)) (get_elem?-append es more i e here ∙ sym here) ∙ h

pub present_fits : (i : ℕ) (e : Entry) → FitsEntry e → present i (some e) ≡ ok e
present_fits i reserved h = absurd h
present_fits i (utf8 v) h = refl
present_fits i (integer v) h = refl
present_fits i (float v) h = refl
present_fits i (long v) h = refl
present_fits i (double v) h = refl
present_fits i (class_ref v) h = refl
present_fits i (string_ref v) h = refl

get_elem?-lt {ℓ} :
    {A : Type ℓ} (xs : List A) (i : ℕ) (x : A) → get_elem? xs i ≡ some x → i < length xs
get_elem?-lt [] i x h = absurd (cc)
get_elem?-lt (z ∷ xs) zero x h = omega arith
get_elem?-lt (z ∷ xs) (suc i) x h = omega (arith, get_elem?-lt xs i x h)

pub entry_bound : (es : List Entry) (i : ℕ) (e : Entry) → entry es i ≡ ok e → i ≤ length es
entry_bound es zero e h = absurd (cc)
entry_bound es (suc i) e h =
    omega (arith, get_elem?-lt es i e (present_found (suc i) (get_elem? es i) e h))

-- The requests that the builder answers with an index.
pub data Request : Type 0 where
  text name string class : Text → Request
  int32 int64 float64 : ℕ → Request

abbrev pub request : Request → Pool → ℕ × Pool
request (text v) cp = pool_utf8 v cp
request (name v) cp = attribute_name v cp
request (string v) cp = pool_string v cp
request (class v) cp = pool_class v cp
request (int32 v) cp = pool_int32 v cp
request (int64 v) cp = pool_int64 v cp
request (float64 v) cp = pool_float64 v cp

-- What the format holds of a request.
abbrev pub FitsRequest : Request → Type 0
FitsRequest (text v) = Short16 v
FitsRequest (name v) = Short16 v
FitsRequest (string v) = Short16 v
FitsRequest (class v) = Short16 v
FitsRequest (int32 v) = IsU32 v
FitsRequest (int64 v) = IsU64 v
FitsRequest (float64 v) = IsU64 v

-- `cpReader` finds at the index what was asked for.
abbrev pub Resolves : List Entry → Request → ℕ → Type 0
Resolves es (text v) i = read_pool_utf8 es i ≡ ok v
Resolves es (name v) i = read_pool_utf8 es i ≡ ok v
Resolves es (string v) i = read_pool_string es i ≡ ok v
Resolves es (class v) i = read_pool_class es i ≡ ok v
Resolves es (int32 v) i = read_pool_int32 es i ≡ ok v
Resolves es (int64 v) i = read_pool_int64 es i ≡ ok v
Resolves es (float64 v) i = read_pool_float64 es i ≡ ok v

-- The entries at the index.
abbrev pub At : List Entry → Request → ℕ → Type 0
At es (text v) i = entry es i ≡ ok (utf8 v)
At es (name v) i = entry es i ≡ ok (utf8 v)
At es (string v) i = (j : ℕ) × (entry es i ≡ ok (string_ref j)) × (entry es j ≡ ok (utf8 v))
At es (class v) i = (j : ℕ) × (entry es i ≡ ok (class_ref j)) × (entry es j ≡ ok (utf8 v))
At es (int32 v) i = entry es i ≡ ok (integer v)
At es (int64 v) i = entry es i ≡ ok (long v)
At es (float64 v) i = entry es i ≡ ok (double v)

pub At-Resolves : (es : List Entry) (q : Request) (i : ℕ) → At es q i → Resolves es q i
unfolding read_pool_utf8 read_pool_string read_pool_class read_pool_int32 read_pool_int64
    read_pool_float64
At-Resolves es (text v) i h = ap (as_utf8 i) h
At-Resolves es (name v) i h = ap (as_utf8 i) h
At-Resolves es (string v) i (j, h, k) = ap (as_string es i) h ∙ ap (as_utf8 j) k
At-Resolves es (class v) i (j, h, k) = ap (as_class es i) h ∙ ap (as_utf8 j) k
At-Resolves es (int32 v) i h = ap (as_int32 i) h
At-Resolves es (int64 v) i h = ap (as_int64 i) h
At-Resolves es (float64 v) i h = ap (as_float64 i) h

pub At_grows : (es more : List Entry) (q : Request) (i : ℕ) → At es q i → At (es ++ more) q i
At_grows es more (text v) i h = entry_grows es more i (utf8 v) h
At_grows es more (name v) i h = entry_grows es more i (utf8 v) h
At_grows es more (string v) i (j, h, k) =
    (j, entry_grows es more i (string_ref j) h, entry_grows es more j (utf8 v) k)
At_grows es more (class v) i (j, h, k) =
    (j, entry_grows es more i (class_ref j) h, entry_grows es more j (utf8 v) k)
At_grows es more (int32 v) i h = entry_grows es more i (integer v) h
At_grows es more (int64 v) i h = entry_grows es more i (long v) h
At_grows es more (float64 v) i h = entry_grows es more i (double v) h

-- The builder's maps, by request.
abbrev pub found : Request → Pool → Option ℕ
found (text v) cp = cp.utf8s v
found (name v) cp = cp.attribute_names v
found (string v) cp = cp.strings v
found (class v) cp = cp.classes v
found (int32 v) cp = cp.int32s v
found (int64 v) cp = cp.int64s v
found (float64 v) cp = cp.float64s v

abbrev pub remember : Request → ℕ → Pool → Pool
remember (text v) i cp = record cp { utf8s = set_text v i cp.utf8s }
remember (name v) i cp = record cp { attribute_names = set_text v i cp.attribute_names }
remember (string v) i cp = record cp { strings = set_text v i cp.strings }
remember (class v) i cp = record cp { classes = set_text v i cp.classes }
remember (int32 v) i cp = record cp { int32s = set_word v i cp.int32s }
remember (int64 v) i cp = record cp { int64s = set_word v i cp.int64s }
remember (float64 v) i cp = record cp { float64s = set_word v i cp.float64s }
