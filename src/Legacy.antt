-- ===== src/Legacy.antt =====
-- The proxy of legacy/, the crate that the present one replaces.
pub mod Libs
pub mod RwLock
pub mod HttpClient
pub mod Plugins
pub mod Credential
pub mod Client
pub mod Context
pub mod Proxy
pub mod Config
pub mod Servers
