-- ===== src/Engine/ChunkStore/AsHost.antt =====
-- engine/sqliteStore.ts as the store that engine/sync.ts is handed, beside a transport and a clock.
use edgeproc_browser.Base.{
  ℕ, ◌≡◌, refl, sym, ap, subst, ok-injective, Option, none, some, List, Text, ok, Outcome, true,
}
use edgeproc_browser.Base.Effects.{Fixes, pure, ◌>>=◌}
use edgeproc_browser.Engine.Json.{Members, object}
use edgeproc_browser.Engine.Fault.{Fault}
use edgeproc_browser.Engine.Platform.{Platform}
use edgeproc_browser.Engine.ActivePointer.{VersionPointer, parse_stored_pointer}
use edgeproc_browser.Engine.FloorGate.{FloorRow, admits, install_pointer}
use edgeproc_browser.Engine.FloorGate.Admitted.{admits-install_pointer}
use edgeproc_browser.Engine.Host.{Host, IsStore}
use edgeproc_browser.Engine.Memory.AsHost.{Outside}
use edgeproc_browser.Engine.Tables.{PointerRow, floor_row, pointer_row, read_row}
use edgeproc_browser.Engine.ChunkStore.{
  Store, has_chunk, put_chunk_compressed, get_chunk, put_manifest, get_manifest, read_active,
  promote, gated,
}
use edgeproc_browser.Engine.ChunkStore.Steady.{
  row_of, has_chunk-Fixes, put_chunk_compressed-Fixes, get_chunk-Fixes, put_manifest-Fixes,
  get_manifest-Fixes,
}
use edgeproc_browser.Engine.ChunkStore.Promoted.{promote_inverts, promote_atomic}

abbrev raw_of : Option VersionPointer → Option Members
raw_of none = none
raw_of (some pointer) = some pointer.raw

-- The pointer that a row serves.
abbrev pub served : Option PointerRow → Option VersionPointer
served o = gated (floor_row o) (floor_row o).pointer

abbrev pub active_of : Store → Option Members
active_of s = raw_of (served s.tables.active_pointer)

abbrev pub sqlite_host : (ℕ → Option Fault) → Platform → Outside → Host Store
sqlite_host disk p outside = record {
  has_chunk = has_chunk;
  put_chunk_compressed = put_chunk_compressed disk p;
  get_chunk = get_chunk disk p;
  put_manifest = put_manifest disk p;
  get_manifest = get_manifest disk p;
  read_active = read_active >>= λ active. pure (raw_of active);
  promote = λ pointer chunks. promote disk pointer (some chunks);
  fetch_bytes = λ url max_bytes s. (outside.fetch url max_bytes, s);
  clock = λ s. outside.clock;
  on_progress = λ progress. pure tt;
  sleep = λ ms. pure tt;
}

-- A row that the gate has let the pointer into serves it.
served-install_pointer :
    (row : FloorRow) (p : VersionPointer)
    → admits row p ≡ true
    → parse_stored_pointer (object p.raw) ≡ some p
    → served (some (pointer_row (install_pointer row p))) ≡ some p
unfolding install_pointer
served-install_pointer row p h k = rw k (rw (admits-install_pointer row p h) refl)

module _ (disk : ℕ → Option Fault) where
  -- After a promotion that returned, `readActive` serves the promoted pointer: the row that was written
  -- passes the gate that is asked again at each read.
  pub read_active-promote :
      (s : Store) (p : VersionPointer) (chunks : Option (List Text))
      → parse_stored_pointer (object p.raw) ≡ some p
      → (promote disk p chunks s).0 ≡ ok tt
      → (read_active (promote disk p chunks s).1).0 ≡ ok (some p)
  unfolding read_active read_row
  read_active-promote s p chunks parses h =
      let (_, admitted, _) = promote_inverts disk s p chunks h in
      subst (λ t. (read_active t).0 ≡ ok (some p)) (sym ((promote_atomic disk s p chunks).0 h))
        (ap ok (served-install_pointer _ p admitted parses))

  module _ (p : Platform) (outside : Outside) where
    kept : {A : Type 0} (m : Store → Outcome Fault A × Store) → Fixes row_of m → Fixes active_of m
    kept m k = record { at = λ s. ap (λ o. raw_of (served o)) (k.at s) }

    -- The SQLite store keeps the contract that the engine relies on: only a `promote` that returns moves
    -- the active pointer, which then is the promoted one, and `readActive` returns it, whatever commits
    -- fail.
    pub sqlite-IsStore : IsStore (sqlite_host disk p outside) active_of
    unfolding read_active ◌>>=◌ read_row
    sqlite-IsStore = record {
      has_chunk = λ h. kept _ (has_chunk-Fixes disk h);
      put_chunk = λ h b n. kept _ (put_chunk_compressed-Fixes disk p h b n);
      get_chunk = λ h n. kept _ (get_chunk-Fixes disk p h n);
      put_manifest = λ b. kept _ (put_manifest-Fixes disk p b);
      get_manifest = λ h. kept _ (get_manifest-Fixes disk p h);
      reads = record { at = λ s. refl };
      read_eq = λ w o h. sym (ok-injective h);
      promotes = λ pointer cs w parses h.
          ap raw_of (ok-injective (read_active-promote w pointer (some cs) parses h));
      promote_fails = λ pointer cs w e h.
          ap (λ t. raw_of (served t.active_pointer))
            ((promote_atomic disk w pointer (some cs)).1 e h).0;
      fetch = λ url n. record { at = λ s. refl };
      progress = λ progress. record { at = λ s. refl };
      sleeps = λ n. record { at = λ s. refl };
    }
