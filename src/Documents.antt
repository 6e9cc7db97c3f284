-- ===== src/Documents.antt =====
-- Documents: src/documents and src/admin/storageQuota.ts.
pub mod Chunk
pub mod Lifecycle
pub mod Quota
pub mod Search
