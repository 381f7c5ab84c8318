-- ===== src/Engine/LegacyStores.antt =====
-- engine/legacyStores.ts: what the two older stores hold, read whole and fail closed.
pub mod Keys
pub mod Slots
use edgeproc_browser.Base.{
  ℕ, suc, zero, ◌*◌, Bool, true, false, ◌&&◌, ◌||◌, not, Option, none, some, List, [], ◌∷◌, ◌++◌,
  ltb, leb, if◌then◌else◌, Text, Bytes, codes, text_eq, starts_with, length, ok, err, ◌>>=◌, ◌>>◌,
}
use edgeproc_browser.Engine.Json.{Json}
use edgeproc_browser.Engine.Fault.{Fault, Result, plain}
use edgeproc_browser.Engine.Platform.{Platform}
use edgeproc_browser.Engine.ActivePointer.{VersionPointer, parse_stored_pointer, is_sha256}
use edgeproc_browser.Engine.Migration.{LegacySnapshot}

abbrev pub max_pointer_file_bytes : ℕ
max_pointer_file_bytes = 16 * 1024

abbrev pub max_legacy_object_bytes : ℕ
max_legacy_object_bytes = 2 * 1024 * 1024

-- A value of IndexedDB: bytes in a view or in an ArrayBuffer, or a structured value.
pub data StoredValue : Type 0 where
  view buffer : Bytes → StoredValue
  structured : Json → StoredValue

pub data Kind : Type 0 where
  chunk manifest : Kind

unfoldable pub bytes_of : StoredValue → ℕ → Option Bytes
bytes_of (view bytes) cap = if leb (length bytes) cap then some bytes else none
bytes_of (buffer bytes) cap = if leb (length bytes) cap then some bytes else none
bytes_of (structured value) cap = none

-- key.slice(n)
abbrev pub slice_from : ℕ → Text → Text
slice_from zero s = s
slice_from (suc n) [] = []
slice_from (suc n) (u ∷ s) = slice_from n s

-- `${kind}${separator}`
abbrev pub prefix_of : Kind → ℕ → Text
prefix_of chunk separator = codes "chunk" ++ (separator ∷ [])
prefix_of manifest separator = codes "manifest" ++ (separator ∷ [])

abbrev pub try_kind : Kind → ℕ → Text → Option (Kind × Text) → Option (Kind × Text)
try_kind kind separator key otherwise =
    if starts_with key (prefix_of kind separator)
      && is_sha256 (slice_from (length (prefix_of kind separator)) key)
    then some (kind, slice_from (length (prefix_of kind separator)) key)
    else otherwise

-- `ownKey`; a key that is no string is `none`
unfoldable pub own_key : Option Text → ℕ → Option (Kind × Text)
own_key none separator = none
own_key (some key) separator = try_kind chunk separator key (try_kind manifest separator key none)

abbrev pub is_active_key : Option Text → Bool
is_active_key none = false
is_active_key (some key) = text_eq key (codes "active")

-- key === ACTIVE || ownKey(key, separator) !== null
unfoldable pub is_own : Option Text → ℕ → Bool
is_own key separator =
    is_active_key key || elim (own_key key separator) [ none ↦ false | some _ ↦ true ]

-- the keys that `deleteOwnKeys` leaves
unfoldable pub delete_own_keys :
    List (Option Text × StoredValue) → ℕ → List (Option Text × StoredValue)
delete_own_keys [] separator = []
delete_own_keys ((key, value) ∷ entries) separator =
    let rest = delete_own_keys entries separator in
    if is_own key separator then rest else (key, value) ∷ rest

-- `unreadableFloor`
abbrev pub unreadable_floor : Fault
unreadable_floor = plain "unreadable legacy rollback floor"

abbrev pub or_unreadable : Option VersionPointer → Result VersionPointer
or_unreadable none = err unreadable_floor
or_unreadable (some pointer) = ok pointer

abbrev pub add_object : Option (Kind × Text) → Option Bytes → LegacySnapshot → LegacySnapshot
add_object (some (chunk, hash)) (some body) found = record found {
  chunks = record { hash = hash; body = body } ∷ found.chunks;
}
add_object (some (manifest, hash)) (some body) found = record found {
  manifests = record { hash = hash; body = body } ∷ found.manifests;
}
add_object _ _ found = found

abbrev pub nothing_read : LegacySnapshot
nothing_read = record { chunks = []; manifests = []; pointers = [] }

-- What is found of a pointer's file in OPFS.
pub data PointerFile : Type 0 where
  not_found failed : PointerFile
  file : Bytes → PointerFile

-- PointerSlot
pub data PointerSlot : Type 0 where
  absent unreadable : PointerSlot
  readable : VersionPointer → PointerSlot

unfoldable pub is_readable : PointerSlot → Bool
is_readable (readable pointer) = true
is_readable _ = false

unfoldable pub is_unreadable : PointerSlot → Bool
is_unreadable unreadable = true
is_unreadable _ = false

abbrev pub pointer_in : PointerSlot → Option VersionPointer
pointer_in (readable pointer) = some pointer
pointer_in _ = none

-- `readOpfsPointers`, of the three slots
unfoldable pub opfs_pointers :
    PointerSlot → PointerSlot → PointerSlot → Result (List (Option VersionPointer))
opfs_pointers active a b =
    if is_unreadable active
      || (is_unreadable a && not (is_readable b))
      || (is_unreadable b && not (is_readable a))
    then err unreadable_floor
    else ok (pointer_in active ∷ pointer_in a ∷ pointer_in b ∷ [])

module _ (p : Platform) where
  abbrev pub parse_bytes : Option Json → Option VersionPointer
  parse_bytes none = none
  parse_bytes (some value) = parse_stored_pointer value

  -- `pointerFromValue`: an object that is no plain one has none of the fields
  abbrev pub pointer_or_none : StoredValue → Option Bytes → Option VersionPointer
  pointer_or_none value (some bytes) = parse_bytes (p.parse_json bytes)
  pointer_or_none (structured value) none = parse_stored_pointer value
  pointer_or_none _ none = none

  unfoldable pub pointer_from_value : StoredValue → Result VersionPointer
  pointer_from_value value =
      or_unreadable (pointer_or_none value (bytes_of value max_pointer_file_bytes))

  -- one entry of the loop of `readIndexedDb`, before what the later entries add
  unfoldable pub read_entry : Option Text × StoredValue → ℕ → LegacySnapshot → Result LegacySnapshot
  read_entry (key, value) separator found =
      if is_active_key key
      then (pointer_from_value value >>= λ pointer.
          ok (record found { pointers = some pointer ∷ found.pointers }))
      else ok (add_object (own_key key separator) (bytes_of value max_legacy_object_bytes) found)

  unfoldable pub read_indexed_db : List (Option Text × StoredValue) → ℕ → Result LegacySnapshot
  read_indexed_db [] separator = ok nothing_read
  read_indexed_db (entry ∷ entries) separator = do
    found ← read_indexed_db entries separator
    read_entry entry separator found

  abbrev pub slot_of : Option VersionPointer → PointerSlot
  slot_of none = unreadable
  slot_of (some pointer) = readable pointer

  -- `readPointerSlot`
  unfoldable pub read_pointer_slot : PointerFile → Result PointerSlot
  read_pointer_slot not_found = ok absent
  read_pointer_slot failed = err (plain "OPFS")
  read_pointer_slot (file bytes) =
      if ltb max_pointer_file_bytes (length bytes)
      then ok unreadable
      else ok (slot_of (parse_bytes (p.parse_json bytes)))

  unfoldable pub read_opfs_pointers :
      PointerFile → PointerFile → PointerFile → Result (List (Option VersionPointer))
  read_opfs_pointers active a b = do
    first ← read_pointer_slot active
    second ← read_pointer_slot a
    third ← read_pointer_slot b
    opfs_pointers first second third
