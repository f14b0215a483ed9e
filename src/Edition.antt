-- ===== src/Edition.antt =====
-- packages/database/src/edition-evidence.ts: the identity of an edition by its URL, and the evidence
-- that two records describe one edition. A text is the list of its UTF-16 code units.
pub mod Identity
pub mod Evidence
pub mod Symmetry
pub mod Soundness
mod Tests
