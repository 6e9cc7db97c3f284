-- ===== src/Admin.antt =====
-- Administration: src/admin, without the statistics and exports.
pub mod Users
pub mod Encryption
