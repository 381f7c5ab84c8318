-- ===== src/Engine/Memory/AsHost.antt =====
-- engine/memoryStore.ts as the store that engine/sync.ts is handed, beside a transport and a clock.
use edgeproc_browser.Base.{
  ok-injective, sym, Option, none, some, Text, Bytes, ok, err, refl, Outcome, ℕ,
}
use edgeproc_browser.Base.Effects.{Fixes, fixes_rules, pure, ◌>>=◌}
use edgeproc_browser.Engine.Json.{Members}
use edgeproc_browser.Engine.Fault.{Fault, Result}
use edgeproc_browser.Engine.Platform.{Platform}
use edgeproc_browser.Engine.ActivePointer.{VersionPointer}
use edgeproc_browser.Engine.Host.{Host, IsStore}
use edgeproc_browser.Engine.Memory.{
  checked_chunk, Memory, has_chunk, read_active, promote, get_manifest, store_chunk,
  put_chunk_compressed, get_chunk, put_manifest,
}

-- What is outside of the store: each request's answer, and the clock.
pub record Outside : Type 0 where
  pub fetch : Text → ℕ → Result Bytes
  pub clock : Option ℕ

abbrev raw_of : Option VersionPointer → Option Members
raw_of none = none
raw_of (some pointer) = some pointer.raw

abbrev pub active_of : Memory → Option Members
active_of s = raw_of s.active

abbrev pub memory_host : Platform → Outside → Host Memory
memory_host p outside = record {
  has_chunk = has_chunk;
  put_chunk_compressed = put_chunk_compressed p;
  get_chunk = get_chunk p;
  put_manifest = put_manifest p;
  get_manifest = get_manifest;
  read_active = read_active >>= λ active. pure (raw_of active);
  promote = promote;
  fetch_bytes = λ url max_bytes s. (outside.fetch url max_bytes, s);
  clock = λ s. outside.clock;
  on_progress = λ progress. pure tt;
  sleep = λ ms. pure tt;
}

module _ (p : Platform) (outside : Outside) where
  store_chunk-Fixes :
      (hash : Text) (r : Outcome Fault Bytes) → Fixes active_of (store_chunk p hash r)
  unfolding store_chunk
  store_chunk-Fixes hash (ok plaintext) = record { at = λ s. refl }
  store_chunk-Fixes hash (err e) = record { at = λ s. refl }

  checked_chunk-Fixes :
      (hash : Text) (n : ℕ) (entry : Outcome Fault Bytes)
      → Fixes active_of (checked_chunk p hash n entry)
  checked_chunk-Fixes hash n entry = search fixes_rules depth 12

  get_chunk-Fixes : (hash : Text) (n : ℕ) → Fixes active_of (get_chunk p hash n)
  unfolding get_chunk
  get_chunk-Fixes hash n = record { at = λ s. (checked_chunk-Fixes hash n _).at s }

  -- The in-memory store keeps the contract that the engine relies on: only a `promote` that returns
  -- moves the active pointer, which then is the promoted one, and `readActive` returns it.
  pub memory-IsStore : IsStore (memory_host p outside) active_of
  unfolding has_chunk put_chunk_compressed put_manifest get_manifest promote read_active ◌>>=◌
  memory-IsStore = record {
    has_chunk = λ h. record { at = λ s. refl };
    put_chunk = λ h b n. store_chunk-Fixes h _;
    get_chunk = get_chunk-Fixes;
    put_manifest = λ b. record { at = λ s. refl };
    get_manifest = λ h. record { at = λ s. refl };
    reads = record { at = λ s. refl };
    read_eq = λ w o h. sym (ok-injective h);
    promotes = λ pointer cs w parses h. refl;
    promote_fails = λ pointer cs w e h. absurd (cc);
    fetch = λ url n. record { at = λ s. refl };
    progress = λ progress. record { at = λ s. refl };
    sleeps = λ n. record { at = λ s. refl };
  }
