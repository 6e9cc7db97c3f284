-- ===== src/Integrations.antt =====
-- Integrations: src/integrations.
pub mod ApiKeys
pub mod Webhooks
