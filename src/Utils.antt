-- ===== src/Utils.antt =====
-- internal/utils: filters, user lists, headers.
pub mod Filter
pub mod Headers
pub mod Secrets
pub mod Users
