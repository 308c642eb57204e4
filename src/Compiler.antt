-- ===== src/Compiler.antt =====
-- internal/compiler/compiler.go: the parts of the compiler that emit code.
pub mod Emit
pub mod Fold
pub mod Scope
