-- ===== src/ClassFile.antt =====
-- internal/classfile/module_codec.go: modules in the format of class files. Wire has the words, texts and
-- lists, Pool the constant pool, Lines the line tables, Method and Classes the attributes.
pub mod Wire
pub mod Pool
pub mod Attribute
pub mod Lines
pub mod Method
pub mod Classes
pub mod Module
pub mod Constants
pub mod Descriptor
