-- ===== src/Engine/Transport.antt =====
-- engine/fetchBytes.ts: a response under its byte cap and its stall window. What arrives, and the
-- milliseconds of silence before it, are the network's; they are given as data.
pub mod Complete
use edgeproc_browser.Base.{
  ℕ, ◌+◌, ◌*◌, Bool, false, ◌&&◌, Option, none, some, List, [], ◌∷◌, ◌++◌, ltb, leb, if◌then◌else◌,
  Bytes, length, ok, err, ◌>>=◌,
}
use edgeproc_browser.Engine.Json.{Number, whole, max_safe_integer}
use edgeproc_browser.Engine.Fault.{Fault, Result, network, response_too_large}

-- FETCH_STALL_TIMEOUT_MS
abbrev pub fetch_stall_timeout_ms : ℕ
fetch_stall_timeout_ms = 30000

-- DEFAULT_MAX_FETCH_BYTES
abbrev pub default_max_fetch_bytes : ℕ
default_max_fetch_bytes = 2 * 1024 * 1024

-- How a body ends: it is finished or breaks off after a silence, or nothing comes any more.
pub data Ending : Type 0 where
  finished : (silence : ℕ) → Ending
  broken : (silence : ℕ) → Fault → Ending
  silent : Ending

-- A body that is null, read whole, or a stream of parts, each after a silence.
pub data Body : Type 0 where
  entire : (silence : ℕ) → Bytes → Body
  stream : List (ℕ × Bytes) → Ending → Body

-- `declared` is the Content-Length where that is a safe natural number.
pub record Response : Type 0 where
  pub is_ok : Bool
  pub declared : Option ℕ
  pub body : Body

pub data Reply : Type 0 where
  unreachable : (silence : ℕ) → Reply
  no_answer : Reply
  headers : (silence : ℕ) → Response → Reply

-- `stalled`
abbrev pub stalled : Fault
stalled = network "stalled"

-- the watchdog, which each arrival arms again
unfoldable pub watched : {A : Type 0} → ℕ → Result A → Result A
watched silence r = if leb fetch_stall_timeout_ms silence then err stalled else r

unfoldable pub response_limit : Option Number → Result ℕ
response_limit none = ok default_max_fetch_bytes
response_limit (some (whole n)) =
    if leb n max_safe_integer && leb 1 n then ok n else err response_too_large
response_limit (some _) = err response_too_large

unfoldable pub ended : Ending → Result Bytes
ended (finished silence) = watched silence (ok [])
ended (broken silence e) = watched silence (err e)
ended silent = err stalled

abbrev pub after_part : Bytes → Result Bytes → Result Bytes
after_part part (ok rest) = ok (part ++ rest)
after_part part (err e) = err e

-- the loop of `readCapped`, and `join`
unfoldable pub read_parts : ℕ → ℕ → List (ℕ × Bytes) → Ending → Result Bytes
read_parts limit total [] ending = ended ending
read_parts limit total ((silence, part) ∷ parts) ending =
    let rest = read_parts limit (total + length part) parts ending in
    watched silence
      (if ltb limit (total + length part) then err response_too_large else after_part part rest)

abbrev pub exceeds_cap : Option ℕ → ℕ → Bool
exceeds_cap none limit = false
exceeds_cap (some declared) limit = ltb limit declared

abbrev pub read_body : Body → ℕ → Result Bytes
read_body (entire silence bytes) limit =
    watched silence (if ltb limit (length bytes) then err response_too_large else ok bytes)
read_body (stream parts ending) limit = read_parts limit 0 parts ending

unfoldable pub read_capped : Response → ℕ → Result Bytes
read_capped response limit =
    if exceeds_cap response.declared limit
    then err response_too_large
    else read_body response.body limit

-- `fetchBytes`
unfoldable pub fetch_bytes : Reply → Option Number → Result Bytes
fetch_bytes (unreachable silence) max_bytes = watched silence (err (network "network unreachable"))
fetch_bytes no_answer max_bytes = err stalled
fetch_bytes (headers silence response) max_bytes = watched silence (
    if response.is_ok
    then (response_limit max_bytes >>= λ limit. read_capped response limit)
    else err (network "status"))
