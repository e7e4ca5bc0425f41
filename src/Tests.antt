-- ===== src/Tests.antt =====
-- Concrete instances of the interfaces, and the theorems at concrete inputs.
mod Toy
mod Message
mod Libs
mod PathRuns
mod CacheRuns
mod RuleRuns
mod ServeRuns
mod ClientRuns
mod HealthRuns
mod LoadRuns
mod EntryRuns
mod ThreadRuns
mod AuthRuns
mod ServiceRuns
mod LegacyRuns
mod LegacyConfigRuns
