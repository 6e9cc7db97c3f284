-- ===== src/Security.antt =====
-- The detection of anomalies: src/security.
pub mod Anomaly
