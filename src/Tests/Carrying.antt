-- ===== src/Tests/Carrying.antt =====
-- The transport, and the shared reads of chunks.
use edgeproc_browser.Base.{text_eq}
use edgeproc_browser.Base.Table.{contains}
use edgeproc_browser.Engine.Transfer.Reader.{
  reader_turn, request, go_on, settle_read, wake, take_out,
}
use edgeproc_browser.Base.{
  ℕ, ◌≡◌, ◌↔◌, ◌<◌, ◌≤◌, refl, true, false, none, some, List, [], ◌∷◌, ok, Bytes, Text,
}
use edgeproc_browser.Engine.Transport.{
  finished, stream, headers, fetch_bytes, response_limit, exceeds_cap,
}
use edgeproc_browser.Engine.Transport.Complete.{IsTimely, joined, fetch_bytes_iff}
use edgeproc_browser.Engine.Transfer.Reader.{
  ReaderEvent, asked, dropped, settled, new_reader, reader_run,
}
use edgeproc_browser.Engine.Transfer.Reader.Shared.{IsShared, reader_run-IsShared}

abbrev parts : List (ℕ × Bytes)
parts = (20000, 1 ∷ 2 ∷ []) ∷ (29999, 3 ∷ []) ∷ []

default_limit : response_limit none ≡ ok 2097152
unfolding response_limit
default_limit = refl

-- forty seconds and more in all
fetch_bytes_example :
    (fetch_bytes
        (headers 10 (record { is_ok = true; declared = some 3; body = stream parts (finished 5) }))
        none
      ≡ ok (1 ∷ 2 ∷ 3 ∷ []))
    ↔ ((10 < 30000)
        × (true ≡ true)
        × (exceeds_cap (some 3) 2097152 ≡ false)
        × IsTimely parts (finished 5)
        × (3 ≤ 2097152)
        × (joined parts ≡ (1 ∷ 2 ∷ 3 ∷ [])))
fetch_bytes_example =
    fetch_bytes_iff 10 2097152 true (some 3) parts (finished 5) none (1 ∷ 2 ∷ 3 ∷ []) default_limit

abbrev a_hash : Text
a_hash = 97 ∷ []

abbrev b_hash : Text
b_hash = 98 ∷ []

abbrev events : List ReaderEvent
events =
    asked a_hash
    ∷ asked a_hash
    ∷ asked b_hash
    ∷ settled a_hash (ok [])
    ∷ dropped a_hash
    ∷ asked a_hash
    ∷ []

reader_run_example : IsShared (reader_run events new_reader)
reader_run_example = reader_run-IsShared events

two_reads : (reader_run events new_reader).active ≡ 2
unfolding reader_run reader_turn request contains go_on text_eq settle_read wake take_out
two_reads = refl
