-- ===== src/Proxy.antt =====
-- internal/proxy: the verification of repository indices against signed Release files.
pub mod Urls
pub mod Verify
pub mod Requests
