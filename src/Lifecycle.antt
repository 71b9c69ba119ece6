-- ===== src/Lifecycle.antt =====
-- The suspension of channels and their return.
pub mod Blueprints
