-- ===== src/Features.antt =====
-- The feature flags of the client: the registry, and the checks of the hooks.
pub mod Registry
pub mod Grouping
pub mod Checks
