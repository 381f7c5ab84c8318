-- ===== src/Engine/Client.antt =====
-- engine/client.ts: EngineClient, which correlates the replies of the Worker with the promises it
-- gave, as turns: a call, a message, a failure of the Worker, a deadline, dispose.
pub mod Counts
pub mod Settled
pub mod Crashed
pub mod Ended
use edgeproc_browser.Base.{
  ℕ, suc, Bool, true, false, Option, none, some, List, [], ◌∷◌, ◌++◌, map, ◌==◌, if◌then◌else◌,
  Text, Bytes, codes, ok, err, Outcome,
}

-- The `kind` of a request
pub data Kind : Type 0 where
  sync read_file clear : Kind

-- EngineRequest: the client reads the id and the kind only.
pub record EngineRequest : Type 0 where
  pub id : ℕ
  pub kind : Kind

-- EngineErrorCode
pub data Code : Type 0 where
  integrity rollback network lock storage internal : Code

-- EngineErrorDetail

pub record Detail : Type 0 where
  pub code : Code
  pub message : Text
  pub reason : Option Text

-- EngineResponse, for results `V` and progress `P`
pub data EngineResponse (V P : Type 0) : Type 0 where
  sync_ok : ℕ → V → EngineResponse V P
  sync_progress : ℕ → P → EngineResponse V P
  read_file_ok : ℕ → Bytes → EngineResponse V P
  clear_ok : ℕ → EngineResponse V P
  engine_err : ℕ → Detail → EngineResponse V P

-- EngineOperationError, its subclass EngineStorageUnavailableError, and what else `sync` throws
pub data ClientError : Type 0 where
  operation : Detail → ClientError
  storage_unavailable : Detail → Text → ClientError
  unexpected_kind : ClientError

-- How the promise of `#send` settles: with a reply, a WorkerCrashError or a WorkerTimeoutError.
pub data Settlement (V P : Type 0) : Type 0 where
  resolved : EngineResponse V P → Settlement V P
  crashed : Text → Settlement V P
  timed_out : Kind → Settlement V P

-- The fields of EngineClient; and what it did: the promises that it settled, the requests that it
-- posted, the progress that it passed on, and how often it terminated the Worker.
pub record EngineClient (V P : Type 0) : Type 0 where
  pub pending : List EngineRequest
  pub next_id : ℕ
  pub crash : Option Text
  pub is_disposed : Bool
  pub is_released : Bool
  pub settled : List (ℕ × Settlement V P)
  pub posted : List EngineRequest
  pub observed : List (ℕ × P)
  pub terminations : ℕ

abbrev pub new_client : {V P : Type 0} → EngineClient V P
new_client = record {
  pending = [];
  next_id = 0;
  crash = none;
  is_disposed = false;
  is_released = false;
  settled = [];
  posted = [];
  observed = [];
  terminations = 0;
}

-- pending.get(id)
unfoldable pub find_pending : List EngineRequest → ℕ → Option EngineRequest
find_pending [] id = none
find_pending (p ∷ ps) id = if p.id == id then some p else find_pending ps id

-- pending.delete(id)
unfoldable pub without : List EngineRequest → ℕ → List EngineRequest
without [] id = []
without (p ∷ ps) id = let rest = without ps id in if p.id == id then rest else p ∷ rest

-- `engineErrorOf`
abbrev pub engine_error_of : Detail → ClientError
engine_error_of detail = elim detail.code [
  | storage ↦ elim detail.reason [
    | none ↦ operation detail
    | some reason ↦ storage_unavailable detail reason
  ]
  | _ ↦ operation detail
]

-- this.#crash ??= …
abbrev pub first_crash : Option Text → Text → Text
first_crash (some e) reason = e
first_crash none reason = reason

module _ {V P : Type 0} where
  unfoldable pub response_id : EngineResponse V P → ℕ
  response_id (sync_ok id v) = id
  response_id (sync_progress id p) = id
  response_id (read_file_ok id bytes) = id
  response_id (clear_ok id) = id
  response_id (engine_err id detail) = id

  -- `#errorOf`
  abbrev pub error_of : EngineResponse V P → ClientError
  error_of (engine_err id detail) = engine_error_of detail
  error_of _ = unexpected_kind

  -- the ends of `sync`, `readFile` and `clear`
  unfoldable pub sync_result : EngineResponse V P → Outcome ClientError V
  sync_result (sync_ok id v) = ok v
  sync_result response = err (error_of response)

  unfoldable pub read_file_result : EngineResponse V P → Outcome ClientError Bytes
  read_file_result (read_file_ok id bytes) = ok bytes
  read_file_result response = err (error_of response)

  unfoldable pub clear_result : EngineResponse V P → Outcome ClientError Bool
  clear_result (clear_ok id) = ok true
  clear_result response = err (error_of response)

  -- `#releaseWorker`
  unfoldable pub release_worker : EngineClient V P → EngineClient V P
  release_worker c =
      if c.is_released
      then c
      else record c { is_released = true; terminations = suc c.terminations }

  abbrev pub rejected : Text → EngineRequest → ℕ × Settlement V P
  rejected e request = (request.id, crashed e)

  -- `#onCrash`
  unfoldable pub on_crash : Text → EngineClient V P → EngineClient V P
  on_crash reason c =
      let e = first_crash c.crash reason in
      release_worker (record c {
        crash = some e;
        pending = [];
        settled = map (rejected e) c.pending ++ c.settled;
      })

  -- A promise is settled, and its entry deleted.
  abbrev pub settle_one : ℕ → Settlement V P → EngineClient V P → EngineClient V P
  settle_one id s c = record c { pending = without c.pending id; settled = (id, s) ∷ c.settled }

  -- The timer of a request fires. It is armed exactly while the request is pending; how long it runs,
  -- and that progress arms it again, is not modelled: it may fire in any turn.
  abbrev pub expired : Text → Option EngineRequest → EngineClient V P → EngineClient V P
  expired reason none c = c
  expired reason (some request) c =
      on_crash reason (settle_one request.id (timed_out request.kind) c)

  -- `#deadline`
  unfoldable pub deadline : ℕ → Text → EngineClient V P → EngineClient V P
  deadline id reason c = expired reason (find_pending c.pending id) c

  -- Progress settles nothing, and only that of a `sync` is passed on.
  abbrev pub note : Kind → ℕ → P → EngineClient V P → EngineClient V P
  note sync id progress c = record c { observed = (id, progress) ∷ c.observed }
  note _ id progress c = c

  abbrev pub reply : EngineResponse V P → Option EngineRequest → EngineClient V P → EngineClient V P
  reply response none c = c
  reply (sync_progress id progress) (some request) c = note request.kind id progress c
  reply response (some request) c = settle_one (response_id response) (resolved response) c

  -- `#onMessage`
  unfoldable pub on_message : EngineResponse V P → EngineClient V P → EngineClient V P
  on_message response c = reply response (find_pending c.pending (response_id response)) c

  -- postMessage, and the error that it may throw
  abbrev pub post : Option Text → EngineClient V P → EngineClient V P
  post none c = c
  post (some reason) c = on_crash reason c

  abbrev pub send_unless :
      Option Text → EngineRequest → Option Text → EngineClient V P → EngineClient V P
  send_unless (some e) request refusal c = record c {
    settled = (request.id, crashed e) ∷ c.settled;
  }
  send_unless none request refusal c =
      post refusal (record c { pending = c.pending ++ (request ∷ []); posted = request ∷ c.posted })

  -- `#allocId`, then `#send`
  unfoldable pub send : Kind → Option Text → EngineClient V P → EngineClient V P
  send kind refusal c =
      send_unless c.crash (record { id = suc c.next_id; kind = kind }) refusal
        (record c { next_id = suc c.next_id })

  -- `dispose`, and `terminate`
  unfoldable pub dispose : EngineClient V P → EngineClient V P
  dispose c =
      if c.is_disposed
      then c
      else on_crash (codes "engine worker disposed") (record c { is_disposed = true })

pub data ClientEvent (V P : Type 0) : Type 0 where
  called : Kind → Option Text → ClientEvent V P
  received : EngineResponse V P → ClientEvent V P
  failed : Text → ClientEvent V P
  idle : ℕ → Text → ClientEvent V P
  disposed : ClientEvent V P

module _ {V P : Type 0} where
  unfoldable pub client_turn : ClientEvent V P → EngineClient V P → EngineClient V P
  client_turn (called kind refusal) c = send kind refusal c
  client_turn (received response) c = on_message response c
  client_turn (failed reason) c = on_crash reason c
  client_turn (idle id reason) c = deadline id reason c
  client_turn disposed c = dispose c

  unfoldable pub client_run : List (ClientEvent V P) → EngineClient V P → EngineClient V P
  client_run [] c = c
  client_run (event ∷ events) c = client_run events (client_turn event c)
