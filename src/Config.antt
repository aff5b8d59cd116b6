-- ===== src/Config.antt =====
-- internal/platform/config/config.go: Types has the configuration, Env the readers of one variable, Load
-- what LoadFor reads and refuses.
pub mod Types
pub mod Env
pub mod Load
pub mod Check
pub mod Valid
pub mod Malformed
pub mod Failing
pub mod Reports
pub mod Wiring
