-- ===== src/Config.antt =====
-- The configuration that the server starts with: src/config. An environment is a function from names to
-- values, and randomness, the file system and commands are parameters.
pub mod Schema
pub mod Secrets
pub mod Keys
pub mod Texts
pub mod Providers
pub mod Checks
pub mod Load
