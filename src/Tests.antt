-- ===== src/Tests.antt =====
-- The theorems at concrete inputs.
mod Scanner
mod Codecs
mod Values
mod Emitter
mod Scopes
mod Machine
mod Lookups
mod ClassFiles
mod Heaps
mod Folds
mod Constants
mod Descriptors
