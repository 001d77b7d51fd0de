-- ===== src/Tests.antt =====
-- The results at concrete inputs, and runs of the definitions.
mod Sample
mod Access
mod Sessions
mod Selection
mod Upgrades
mod Uploading
mod Navigating
mod Notifying
mod Discounts
mod Formatting
mod Overlaps
mod Visiting
mod Auditing
mod Paying
mod Configuring
mod Charging
mod Managing
mod Renting
