-- ===== src/ClassFile/Attribute.antt =====
-- internal/classfile/module_codec.go: attributes, which have a name in the constant pool and bytes that are
-- written to a buffer of their own. A writer has the pool as its state, since it may ask for names; a
-- reader has none.
pub mod Reads
use polyloft_bvm.Prelude.{ℕ, ◌+◌, List, Text, length}
use polyloft_bvm.Binary.{Result, ok, err, Bytes, Writer, Reader, ◌>>◌, ◌>>=◌, give, emit, read_full}
use polyloft_bvm.ClassFile.Wire.{write_u2, write_u4, read_u2, read_u4}
use polyloft_bvm.ClassFile.Pool.{Entry, Pool, attribute_name, read_pool_utf8}

abbrev pub Out : Type 0
Out = Writer Pool

abbrev pub In {ℓ} : Type ℓ → Type ℓ
In A = Reader (Unit {0}) A

-- Write to a new buffer, and go on with its bytes.
unfoldable pub buffered : Out → (Bytes → Out) → Out
buffered w k cp = elim (w cp) [ ok (bs, cp') ↦ k bs cp' | err p ↦ err p ]

-- `cp.AttributeName(name)`.
unfoldable pub named : Text → (ℕ → Out) → Out
named v k cp = k (attribute_name v cp).0 (attribute_name v cp).1

-- Read a buffer; what is left of it is dropped.
unfoldable pub decoded {ℓ} : {A : Type ℓ} → In A → Bytes → Result A
decoded r info = elim (r info tt) [ ok (a, rest, t) ↦ ok a | err p ↦ err p ]

-- A result in a chain of reads.
unfoldable pub lift {ℓ} : {A : Type ℓ} → Result A → In A
lift (ok a) bs t = ok (a, bs, t)
lift (err p) bs t = err p

unfoldable pub write_attribute : ℕ → Bytes → Out
write_attribute i info = do write_u2 i; write_u4 (length info); emit info

unfoldable pub read_attribute : List Entry → In (Text × Bytes)
read_attribute es = do
  i ← read_u2
  n ← read_u4
  name ← lift (read_pool_utf8 es i)
  info ← read_full n
  give (name, info)
