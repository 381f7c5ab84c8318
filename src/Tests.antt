-- ===== src/Tests.antt =====
-- The library's definitions at concrete inputs.
mod Bundle
mod Formats
mod Trust
mod Pointers
mod Stores
mod Syncing
mod Fetching
mod Durable
mod Migrating
mod Calling
mod Carrying
