-- ===== src/Lib.antt =====
-- Verification of edgeproc-browser: the signed-bundle sync engine (src/engine).
--
-- The engine fetches a signed pointer and the manifest that it names, downloads the chunks that the
-- store lacks, verifies everything against content hashes, and then promotes the pointer in the
-- store. A pointer that would take the client back to an older release is refused. Offline, the
-- cached bundle is served, under the keys that are trusted now.
--
-- The parts, and the files that model them:
--   * Engine/Json, Engine/Fault, Engine/Platform: JSON values, the error classes, and the code that
--     the engine only calls (SHA-256, Ed25519, the Zstandard decoder, JSON.parse): parameters, of
--     which no law is assumed.
--   * Engine/Canonical: canonicalBytes of src/engine/canonical.ts, with the order of UTF-16 units.
--   * Engine/Zstd and Engine/Integrity: declaredContentSize and decompressBounded of
--     src/engine/zstd.ts; decompressAndVerify and verifyPlaintext of src/engine/integrity.ts.
--   * Engine/Keyring, Engine/Loading: src/engine/keyring.ts: parseTrustRoot, assertKeyring,
--     verifyWithKeyring; loadTrustRoot.
--   * Engine/ActivePointer: src/engine/activePointer.ts. A pointer keeps the object that it was read
--     from in `raw`: the signature covers that object.
--   * Engine/Pointer, Engine/Freshness, Engine/Manifest, Engine/Transfer, Engine/Sync: the parts of
--     src/engine/sync.ts, from assertVersionPointer to syncIndex, one function each. The workers of
--     fetchMissing and of mapBounded are in Engine/Transfer/Workers and Engine/Transfer/Bounded, as
--     turns over their shared variables: a run is any list of turns, each with what settles for its
--     worker; the reads of chunkReader are in Engine/Transfer/Reader in the same way.
--   * Engine/Transport: src/engine/fetchBytes.ts, over the parts that the network delivers and the
--     silences before them.
--   * Engine/Host: CacheStore of src/engine/types.ts with the transport, the clock, the observer and
--     the sleep, as operations on a world; and the contract that a store keeps.
--   * Engine/Memory: MemoryCacheStore of src/engine/memoryStore.ts.
--   * Engine/FloorGate, Engine/Tables, Engine/ChunkStore: src/engine/sqliteStore.ts: the gate that
--     every promotion and every read of the active pointer asks; the tables with their constraints,
--     the trigger and the statements on them; and SqliteCacheStore over them, method by method.
--     Engine/ChunkStore/AsHost fills the contract of Engine/Host with it.
--   * Engine/Migration: src/engine/migration.ts, over sources that stand for IndexedDB and OPFS;
--     Engine/LegacyStores: what src/engine/legacyStores.ts makes of the values and files in them.
--   * Engine/Client: src/engine/client.ts: EngineClient, on the main thread, as turns over its fields;
--     what it settles, posts and terminates is kept in lists and a counter beside them.
--   * Engine/Sessions: src/engine/chunkDatabase.ts: how a session opens, which operations run
--     together, and how one is settled.
--
-- How the code is read: a method that may throw and that changes state is a function from a state to
-- an outcome and a state (Base/Effects); what was written before a throw stays written. A string is
-- the list of its UTF-16 units, a byte array a list of numbers, a Map an association list in the
-- order of insertion. A JSON number is a whole one, a negative one or another one; a release
-- component is rounded to a double as Number() does (Base/Double).
--
-- A transaction works on the tables and is then committed or not: the outcome of each COMMIT is a
-- parameter, and what throws leaves the tables as they were. A floor of -1 is `none`. The
-- pointer's column holds the JSON value of its text.
--
-- Bounds and fuel: the batches of a session have the length of the queue as their fuel; the walk
-- over a frame's blocks has one step for each byte and one more, and a block takes three bytes at
-- least; the retry loop has the six attempts of the code as its fuel. All other loops are over
-- lists.
--
-- Not modelled: the progress inside of a chunk, the overlapping of the calls in Engine/Transfer
-- itself, where each settles before the next one starts (that is what Workers and Bounded there are
-- for); the random part of the backoff, the texts of messages beyond their fixed part, the freezing
-- of objects, a fraction of a second of the clock; how long the deadline of a request runs; a read
-- of SQLite that fails, the locks between tabs, operations that are queued while a session runs.
-- Outside of this: the calls of IndexedDB and OPFS, the Worker's side of the protocol, the SQL
-- seam, sealing and the vector index.
pub mod Base
pub mod Engine
pub mod Tests
