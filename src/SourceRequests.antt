-- ===== src/SourceRequests.antt =====
-- packages/database/src/source-requests.ts and its migration: the request budget, the spacing and the
-- circuit of each source.
pub mod Gate
pub mod Control
pub mod Budget
pub mod Resume
mod Tests
