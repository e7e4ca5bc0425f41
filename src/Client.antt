-- ===== src/Client.antt =====
-- dap-lib/src/doh_client: the client that sends queries over DoH and ODoH.
pub mod Http
pub mod Odoh
pub mod Exchange
pub mod Query
pub mod Health
pub mod QueryLaws
pub mod New
pub mod Resolve
pub mod HealthRound
pub mod OdohLaws
