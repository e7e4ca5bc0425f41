-- ===== src/Manipulation.antt =====
-- dap-lib/src/doh_client/manipulation: domain blocking, domain overriding, and their application.
pub mod Libs
pub mod Block
pub mod Search
pub mod Blocked
pub mod BlockRule
pub mod Override
pub mod Apply
pub mod ApplyLaws
pub mod OverrideLaws
