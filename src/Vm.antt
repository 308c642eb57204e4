-- ===== src/Vm.antt =====
-- internal/vm/vm.go: parts of the virtual machine.
pub mod Jumps
pub mod Arith
