-- ===== src/Engine/Fault.antt =====
-- The errors that the engine throws. Each constructor is a class of src/engine, with the fixed part
-- of its message where the class has several; a subclass relation is a test below.
use edgeproc_browser.Base.{Bool, true, false, String, Outcome}

-- The reasons of `downgradeReason`: STALE_SEQUENCE, STALE_VERSION, UNPROVABLE; and that of the
-- durable floor, in sqliteStore.ts.
pub data Refusal : Type 0 where
  stale_sequence stale_version unprovable below_floor : Refusal

pub data Fault : Type 0 where
  integrity sync_cap keyring : String → Fault
  rollback : Refusal → Fault
  pointer_expired response_too_large : Fault
  -- LegacyFloorUnavailableError, of migration.ts
  legacy_floor_unavailable : Fault
  -- SqlStorageUnavailableError, of the SQL seam, with its reason
  storage_unavailable : String → Fault
  signature key_revoked unknown_key : Fault
  network : String → Fault
  -- an error of the storage layer that `isQuotaError` recognises
  quota : Fault
  type_error plain : String → Fault

abbrev pub Result : Type 0 → Type 0
Result A = Outcome Fault A

-- error instanceof NetworkError
unfoldable pub is_network : Fault → Bool
is_network (network _) = true
is_network _ = false

-- error instanceof SyncCapError
unfoldable pub is_sync_cap : Fault → Bool
is_sync_cap (sync_cap _) = true
is_sync_cap _ = false

-- error instanceof SignatureError
unfoldable pub is_signature : Fault → Bool
is_signature signature = true
is_signature key_revoked = true
is_signature unknown_key = true
is_signature _ = false

-- error instanceof IntegrityError
unfoldable pub is_integrity : Fault → Bool
is_integrity (integrity _) = true
is_integrity (sync_cap _) = true
is_integrity (keyring _) = true
is_integrity (rollback _) = true
is_integrity pointer_expired = true
is_integrity response_too_large = true
is_integrity _ = false

-- isQuotaError(error)
unfoldable pub is_quota_error : Fault → Bool
is_quota_error quota = true
is_quota_error _ = false
