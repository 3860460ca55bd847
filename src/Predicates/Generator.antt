-- ===== src/Predicates/Generator.antt =====
-- packages/predicate-lib/src/generator.ts: circuits from templates, and their entries in the
-- registry.
pub mod Types
pub mod Substitution
pub mod Texts
pub mod Files
pub mod Batch
pub mod Battery
mod Tests
