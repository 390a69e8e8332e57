-- ===== src/Tenancy.antt =====
-- Users, organisations and memberships: tenancy/models.py, tenancy/store.py and
-- dashboard/principal.py.
pub mod Store
pub mod Principal
pub mod Revocation
pub mod Emails
