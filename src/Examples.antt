-- ===== src/Examples.antt =====
-- The theorems at concrete inputs: Fixtures has a small codec, a database and events; the other
-- modules run the components on them.
pub mod Fixtures
pub mod Events
pub mod Applies
pub mod Refusals
pub mod Polls
pub mod Batches
pub mod Configs
pub mod Deploys
pub mod Outages
pub mod Fleets
pub mod Viewers
pub mod Probes
