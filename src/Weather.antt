-- ===== src/Weather.antt =====
-- services/weatherlink-kafka: the windows of the history that it asks for, and what it publishes.
pub mod Windows
pub mod Records
pub mod Duplicates
pub mod Complete
pub mod Metadata
pub mod Fetching
pub mod History
