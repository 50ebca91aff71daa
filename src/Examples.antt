-- ===== src/Examples.antt =====
-- The theorems of the parts at concrete inputs, and tests.
mod Writer
mod Workers
mod Crew
mod Weather
mod History
mod Unifi
mod HomeAssistant
mod Command
mod Metadata
mod Registry
mod Backfill
