-- ===== src/ClassFile/Method/Code.antt =====
-- The attribute Code, and a method with its attributes, are read back.
use polyloft_bvm.Prelude.{
  ℕ, ◌≡◌, refl, List, [], none, some, Text, same_text, length, All, leb, true, arith,
}
use polyloft_bvm.Prelude.Word.{IsU16, IsU32}
use polyloft_bvm.Binary.{ok, Bytes, ◌>>◌, ◌>>=◌, read_full}
use polyloft_bvm.Binary.Reads.{Reads-seq, Reads-last, Reads-done, Reads-full}
use polyloft_bvm.ClassFile.Wire.Reads.{Reads-u2, Reads-u4}
use polyloft_bvm.ClassFile.Pool.{Entry, Pool, read_pool_utf8}
use polyloft_bvm.ClassFile.Attribute.{decoded, lift, write_attribute}
use polyloft_bvm.ClassFile.Attribute.Reads.{
  Complete, Codec, Sized, Knows, Codec-buffered, Codec-named, Codec-silent, Codec-after,
  Codec-attribute,
}
use polyloft_bvm.ClassFile.Lines.{encode_line_number_table, decode_line_number_table}
use polyloft_bvm.ClassFile.Lines.RoundTrip.{decode_line_number_table-encode_line_number_table}
use polyloft_bvm.ClassFile.Method.{
  EncodedMethod, DecodedMethod, no_meta, encode_code_attribute, decode_code_attribute,
  read_code_attributes, or_zeros, lines_name, code_name, method_name, encode_method_meta,
  decode_method_meta, write_method_info, read_method_info, read_method_attributes,
}
use polyloft_bvm.ClassFile.Method.Meta.{FitsMeta, Codec-method_meta}

module _ (cp : Pool) (es : List Entry) where
  abbrev R : Pool → Unit {0} → Type 0
  R = Complete cp

  -- What the format holds of a method: fewer than 2^16 bytes of code, each with its line, and
  -- attributes below 2^32 bytes.
  pub record FitsMethod (m : EncodedMethod) : Type 0 where
    pub access_flags : IsU16 m.access_flags
    pub name_index : IsU16 m.name_index
    pub descriptor_index : IsU16 m.descriptor_index
    pub max_locals : IsU16 m.max_locals
    pub code : IsU16 (length m.code)
    pub each_line : length m.lines ≡ length m.code
    pub lines : All IsU16 m.lines
    pub meta : FitsMeta m.meta
    pub table_size : Sized cp (encode_line_number_table m.lines)
    pub code_size : Sized cp (encode_code_attribute m)
    pub meta_size : Sized cp (encode_method_meta m.meta)

  one_table :
      (n : ℕ) (info : Bytes) (lines : List ℕ)
      → decoded (decode_line_number_table n) info ≡ ok lines
      → (known : Knows cp es lines_name) → IsU32 (length info)
      → Codec cp (write_attribute known.index info) (read_code_attributes es n 1 none) (some lines)
  unfolding read_code_attributes same_text
  one_table n info lines d known h =
      Reads-done R _ (rw d (unfold lift ◌>>=◌ in refl))
        (Codec-attribute cp es lines_name known info h)

  no_exceptions : (bs : Bytes) (t : Unit {0}) → read_full 0 bs t ≡ ok ([], bs, t)
  unfolding read_full
  no_exceptions bs t = let e : leb 0 (length bs) ≡ true = ground arith in rw e refl

  Codec-code_attribute :
      (m : EncodedMethod)
      → FitsMethod m
      → Knows cp es lines_name
      → Codec cp
          (encode_code_attribute m)
          (decode_code_attribute es)
          (m.code, m.lines, m.max_locals)
  unfolding encode_code_attribute decode_code_attribute
  Codec-code_attribute m h known =
      let n = length m.code in
      let few : IsU16 (length m.lines) = omega (arith, h.each_line) in
      Reads-seq R _ (Reads-u2 R 0 (omega arith)) (
        Reads-seq R _ (Reads-u2 R m.max_locals h.max_locals) (
          Reads-seq R _ (Reads-u4 R n (omega arith)) (
            Reads-seq R _ (Reads-full R m.code) (
              Reads-seq R _ (Reads-u2 R 0 (omega arith)) (
                Codec-silent cp _ (read_full 0) [] no_exceptions (
                  Codec-buffered cp {r = decode_line_number_table (length m.lines)}
                    (decode_line_number_table-encode_line_number_table cp m.lines few h.lines)
                    h.table_size
                    λ info d small. Codec-named cp _ es lines_name known (
                      Reads-seq R _ (Reads-u2 R 1 (omega arith)) (
                        Reads-last R (λ lines. (m.code, or_zeros n lines, m.max_locals))
                          (one_table n info m.lines (rw h.each_line at d) known small)))))))))

  -- The two attributes of a method, and its names.
  both_attributes :
      (m : EncodedMethod) (name descriptor : Text) (code meta : Bytes)
      → decoded (decode_code_attribute es) code ≡ ok (m.code, m.lines, m.max_locals)
      → decoded decode_method_meta meta ≡ ok m.meta
      → (c : Knows cp es code_name) → (d : Knows cp es method_name) → IsU32 (length code)
      → IsU32 (length meta)
      → Codec cp
          (write_attribute c.index code >> write_attribute d.index meta)
          (read_method_attributes es 2 (record {
            name = name;
            descriptor = descriptor;
            code = [];
            lines = [];
            max_locals = 0;
            meta = no_meta;
          }))
          (record {
            name = name;
            descriptor = descriptor;
            code = m.code;
            lines = m.lines;
            max_locals = m.max_locals;
            meta = m.meta;
          })
  unfolding read_method_attributes same_text
  both_attributes m name descriptor code meta e f c d u v =
      Reads-seq R _ (Codec-attribute cp es code_name c code u) (
        Codec-after cp _ _ (m.code, m.lines, m.max_locals) e
          (Reads-done R _ (rw f (unfold lift ◌>>=◌ in refl))
            (Codec-attribute cp es method_name d meta v)))

  -- What is read of a method.
  abbrev pub seen : Text → Text → EncodedMethod → DecodedMethod
  seen name descriptor m = record {
    name = name;
    descriptor = descriptor;
    code = m.code;
    lines = m.lines;
    max_locals = m.max_locals;
    meta = m.meta;
  }

  pub Codec-method_info :
      (m : EncodedMethod) (name descriptor : Text)
      → FitsMethod m
      → Knows cp es lines_name
      → Knows cp es code_name
      → Knows cp es method_name
      → read_pool_utf8 es m.name_index ≡ ok name
      → read_pool_utf8 es m.descriptor_index ≡ ok descriptor
      → Codec cp (write_method_info m) (read_method_info es) (seen name descriptor m)
  unfolding write_method_info read_method_info
  Codec-method_info m name descriptor h kl kc km en ed =
      Reads-seq R _ (Reads-u2 R m.access_flags h.access_flags) (
        Reads-seq R _ (Reads-u2 R m.name_index h.name_index) (
          Reads-seq R _ (Reads-u2 R m.descriptor_index h.descriptor_index) (
            Codec-buffered cp (Codec-code_attribute m h kl) h.code_size λ code dc uc.
              Codec-buffered cp (Codec-method_meta cp m.meta h.meta) h.meta_size λ meta dm um.
                Codec-named cp _ es code_name kc (
                  Codec-named cp _ es method_name km (
                    Reads-seq R _ (Reads-u2 R 2 (omega arith)) (
                      Codec-after cp _ _ name en (
                        Codec-after cp _ _ descriptor ed
                          (both_attributes m name descriptor code meta dc dm kc km uc um))))))))
