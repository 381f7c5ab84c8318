-- ===== src/Engine/Transfer/Reader.antt =====
-- engine/sync.ts: the reads of chunks that the files of a bundle share, as turns in any order.
pub mod Occurrences
pub mod Shared
use edgeproc_browser.Base.{
  ℕ, suc, ◌-◌, Option, none, some, List, [], ◌∷◌, ◌++◌, leb, if◌then◌else◌, Text, Bytes, text_eq,
  ok, err, Outcome,
}
use edgeproc_browser.Base.Table.{contains}
use edgeproc_browser.Engine.Fault.{Fault}

-- MAX_CONCURRENT_CHUNK_READS
abbrev pub max_concurrent_chunk_reads : ℕ
max_concurrent_chunk_reads = 8

-- The variables of `chunkReader`. Of the runs that are in flight, `waiting` are those that wait to be
-- called, `woken` those that have been called and have not gone on yet, `reads` those in `getChunk`, and
-- `over` those that have settled, before their hash is deleted.
pub record Reader : Type 0 where
  pub active : ℕ
  pub failure : Option Fault
  pub waiting : List Text
  pub woken : List Text
  pub reads : List Text
  pub over : List Text
  pub in_flight : List Text

abbrev pub new_reader : Reader
new_reader = record {
  active = 0;
  failure = none;
  waiting = [];
  woken = [];
  reads = [];
  over = [];
  in_flight = [];
}

-- the list without one of the item
unfoldable pub take_out : List Text → Text → List Text
take_out [] h = []
take_out (j ∷ js) h = if text_eq j h then js else j ∷ take_out js h

abbrev pub shifted : List Text → Reader → Reader
shifted [] r = r
shifted (w ∷ rest) r = record r { waiting = rest; woken = w ∷ r.woken }

-- waiting.shift()?.()
unfoldable pub wake : Reader → Reader
wake r = shifted r.waiting r

abbrev pub end_run : Text → Reader → Reader
end_run h r = record r { over = h ∷ r.over }

-- inFlight.delete(hash)
abbrev pub drop : Text → Reader → Reader
drop h r = record r { over = take_out r.over h; in_flight = take_out r.in_flight h }

abbrev pub enter_if : Option Fault → Text → Reader → Reader
enter_if (some e) h r = wake (end_run h r)
enter_if none h r = record r { active = suc r.active; reads = h ∷ r.reads }

-- `run`, from the test of its loop to the call of `getChunk`
unfoldable pub go_on : Text → Reader → Reader
go_on h r =
    if leb max_concurrent_chunk_reads r.active
    then record r { waiting = r.waiting ++ (h ∷ []) }
    else enter_if r.failure h r

-- the function that `chunkReader` returns: a chunk in flight is shared
unfoldable pub request : Text → Reader → Reader
request h r =
    if contains r.in_flight h then r else go_on h (record r { in_flight = h ∷ r.in_flight })

-- failure ??= { error }
abbrev pub kept_failure : Option Fault → Outcome Fault Bytes → Option Fault
kept_failure (some e) answer = some e
kept_failure none (err e) = some e
kept_failure none (ok bytes) = none

-- what follows `getChunk`
unfoldable pub settle_read : Text → Outcome Fault Bytes → Reader → Reader
settle_read h answer r = wake (
    end_run h (record r {
      active = r.active - 1;
      reads = take_out r.reads h;
      failure = kept_failure r.failure answer;
    }))

-- What happens next: a file asks for a chunk, a run that was called goes on, a read settles, or the
-- `finally` of a run that is over deletes its hash.
pub data ReaderEvent : Type 0 where
  asked woke dropped : Text → ReaderEvent
  settled : Text → Outcome Fault Bytes → ReaderEvent

-- An event of a run that is not there changes nothing.
unfoldable pub reader_turn : ReaderEvent → Reader → Reader
reader_turn (asked h) r = request h r
reader_turn (woke h) r =
    if contains r.woken h then go_on h (record r { woken = take_out r.woken h }) else r
reader_turn (dropped h) r = if contains r.over h then drop h r else r
reader_turn (settled h answer) r = if contains r.reads h then settle_read h answer r else r

unfoldable pub reader_run : List ReaderEvent → Reader → Reader
reader_run [] r = r
reader_run (event ∷ events) r = reader_run events (reader_turn event r)
