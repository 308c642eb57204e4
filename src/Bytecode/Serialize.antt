-- ===== src/Bytecode/Serialize.antt =====
-- internal/bytecode/serialize.go: `WriteString` to `ReadBinaryFunction`. A map is written in the order
-- of its list, which stands for the order that Go's iteration picks.
use polyloft_bvm.Prelude.{
  ℕ, zero, suc, List, [], Option, none, some, Text, TextMap, put, length, ◌==◌, if◌then◌else◌,
}
use polyloft_bvm.Binary.{
  Writer, Reader, ◌>>◌, ◌>>=◌, give, emit, write_byte, write_u32, read_full, read_byte, read_u32,
  read_i32, write_each, read_each,
}
use polyloft_bvm.Bytecode.{Chunk, UpvalueSpec, InterfaceMethodSpec, InterfaceSpec, Function}

module _ {S : Type 0} where
  unfoldable pub write_string : Text → Writer S
  write_string s = do write_u32 (length s); emit s

  unfoldable pub read_string : Reader S Text
  read_string = do n ← read_u32; read_full n

  unfoldable pub write_string_slice : List Text → Writer S
  write_string_slice list = do write_u32 (length list); write_each write_string list

  unfoldable pub read_string_slice : Reader S (List Text)
  read_string_slice = do n ← read_u32; read_each read_string n

  -- A loop that fills a map: `m[k] = v` in each round.
  unfoldable pub read_map {ℓ} :
      {V : Type ℓ} → Reader S (Text × V) → ℕ → TextMap V → Reader S (TextMap V)
  read_map read zero m = give m
  read_map read (suc n) m = do e ← read; read_map read n (put e.0 e.1 m)

  unfoldable pub write_upvalue : UpvalueSpec → Writer S
  write_upvalue uv = do write_byte uv.index; write_byte (if uv.is_local then 1 else 0)

  unfoldable pub read_upvalue : Reader S UpvalueSpec
  read_upvalue = do
    index ← read_byte
    local ← read_byte
    give (record { index = index; is_local = local == 1 })

  -- One method of an interface, with its key.
  unfoldable pub write_method : Text × InterfaceMethodSpec → Writer S
  write_method e = do
    write_string e.0
    write_string e.1.name
    write_string_slice e.1.params
    write_string e.1.return_type

  unfoldable pub read_method : Reader S (Text × InterfaceMethodSpec)
  read_method = do
    key ← read_string
    name ← read_string
    params ← read_string_slice
    return_type ← read_string
    give (key, record { name = name; params = params; return_type = return_type })

  -- One interface, with its key.
  unfoldable pub write_interface : Text × InterfaceSpec → Writer S
  write_interface e = do
    write_string e.0
    write_string e.1.name
    write_string e.1.functional_method
    write_u32 (length e.1.methods)
    write_each write_method e.1.methods

  unfoldable pub read_interface : Reader S (Text × InterfaceSpec)
  read_interface = do
    key ← read_string
    name ← read_string
    functional ← read_string
    n ← read_u32
    methods ← read_map read_method n []
    give (key, record { name = name; methods = methods; functional_method = functional })

-- `enc` and `dec`, the codec of the constants.
module _ {S C : Type 0} where
  unfoldable pub write_chunk : (C → Writer S) → Chunk C → Writer S
  write_chunk encode c = do
    write_u32 (length c.code)
    emit c.code
    write_u32 (length c.lines)
    write_each write_u32 c.lines
    write_u32 (length c.constants)
    write_each encode c.constants

  unfoldable pub write_chunk? : (C → Writer S) → Option (Chunk C) → Writer S
  write_chunk? encode none = write_byte 0
  write_chunk? encode (some c) = do write_byte 1; write_chunk encode c

  -- `WriteBinary`.
  unfoldable pub write_function : (C → Writer S) → Function C → Writer S
  write_function encode f = do
    write_string f.name
    write_u32 f.arity
    write_string_slice f.param_types
    write_string f.owner_class_name
    write_u32 (length f.upvalues)
    write_each write_upvalue f.upvalues
    write_string f.return_type
    write_u32 f.max_locals
    write_u32 f.global_slot_count
    write_string_slice f.global_slot_names
    write_u32 (length f.interfaces)
    write_each write_interface f.interfaces
    write_chunk? encode f.chunk

  unfoldable pub read_chunk : Reader S C → Reader S (Chunk C)
  read_chunk decode = do
    code_len ← read_u32
    code ← read_full code_len
    lines_len ← read_u32
    lines ← read_each read_i32 lines_len
    cons_len ← read_u32
    constants ← read_each decode cons_len
    give (record { code = code; constants = constants; lines = lines })

  unfoldable pub read_chunk? : Reader S C → Reader S (Option (Chunk C))
  read_chunk? decode = do
    has_chunk ← read_byte
    if has_chunk == 1 then (read_chunk decode >>= λ c. give (some c)) else give none

  -- `ReadBinaryFunction`.
  unfoldable pub read_function : Reader S C → Reader S (Function C)
  read_function decode = do
    name ← read_string
    arity ← read_i32
    param_types ← read_string_slice
    owner ← read_string
    upvalues_len ← read_u32
    upvalues ← read_each read_upvalue upvalues_len
    return_type ← read_string
    max_locals ← read_i32
    slot_count ← read_i32
    slot_names ← read_string_slice
    interfaces_len ← read_u32
    interfaces ← read_map read_interface interfaces_len []
    chunk ← read_chunk? decode
    give (record {
      name = name;
      arity = arity;
      param_types = param_types;
      owner_class_name = owner;
      upvalues = upvalues;
      return_type = return_type;
      max_locals = max_locals;
      global_slot_count = slot_count;
      global_slot_names = slot_names;
      interfaces = interfaces;
      chunk = chunk;
    })
