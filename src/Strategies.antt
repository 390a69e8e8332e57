-- ===== src/Strategies.antt =====
-- The strategies: strategies_store/store.py and models/registry.py.
pub mod Models
pub mod Store
pub mod Rights
pub mod Cleanup
pub mod Resolution
