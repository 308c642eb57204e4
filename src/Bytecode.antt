-- ===== src/Bytecode.antt =====
-- internal/bytecode/chunk.go: the data types. The type of the constants, `any` in the source, is a
-- parameter. An `int` is its 64-bit pattern.
pub mod Opcode
pub mod Serialize
pub mod RoundTrip
use polyloft_bvm.Prelude.{ℕ, Bool, List, Option, Text, TextMap}

pub record Chunk (C : Type 0) : Type 0 where
  pub code : List ℕ
  pub constants : List C
  pub lines : List ℕ

pub record UpvalueSpec : Type 0 where
  pub index : ℕ
  pub is_local : Bool

pub record InterfaceMethodSpec : Type 0 where
  pub name : Text
  pub params : List Text
  pub return_type : Text

pub record InterfaceSpec : Type 0 where
  pub name : Text
  pub methods : TextMap InterfaceMethodSpec
  pub functional_method : Text

pub record Function (C : Type 0) : Type 0 where
  pub name : Text
  pub arity : ℕ
  pub param_types : List Text
  pub owner_class_name : Text
  pub upvalues : List UpvalueSpec
  pub return_type : Text
  pub max_locals : ℕ
  pub global_slot_count : ℕ
  pub global_slot_names : List Text
  pub interfaces : TextMap InterfaceSpec
  pub chunk : Option (Chunk C)
