-- ===== src/Scim.antt =====
-- Package scim: the filters of SCIM requests.
pub mod Filter
