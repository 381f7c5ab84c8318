-- ===== src/Engine.antt =====
-- src/engine: the signed-bundle sync engine.
pub mod Json
pub mod Fault
pub mod ActivePointer
pub mod Freshness
pub mod Zstd
pub mod Platform
pub mod Integrity
pub mod Canonical
pub mod Keyring
pub mod Pointer
pub mod Manifest
pub mod Host
pub mod Loading
pub mod Memory
pub mod Transfer
pub mod Sync
pub mod FloorGate
pub mod Tables
pub mod ChunkStore
pub mod Migration
pub mod Sessions
pub mod LegacyStores
pub mod Client
pub mod Transport
