-- ===== src/Engine/Client/Ended.antt =====
-- engine/client.ts: what a failure, a rejection and dispose leave of an EngineClient.
use edgeproc_browser.Base.{
  ℕ, suc, ◌≡◌, ◌⊎◌, inl, inr, refl, Bool, true, false, Option, none, some, List, [], ◌∷◌, Text, All,
  if◌then◌else◌,
}
use edgeproc_browser.Engine.Client.{
  find_pending, Kind, sync, read_file, clear, EngineRequest, EngineResponse, sync_ok, sync_progress,
  read_file_ok, clear_ok, engine_err, EngineClient, new_client, expired, deadline, note, reply,
  on_message, send_unless, send, ClientEvent, called, received, failed, idle, disposed, client_turn,
  client_run,
}
use edgeproc_browser.Engine.Client.Settled.{
  turn-IsAccounted, IsAccounted, IsLatched, client_run-IsAccounted_from, new_client-IsAccounted,
}
use edgeproc_browser.Engine.Client.Crashed.{
  IsCrashed, has_last, is_last, is_resolved, HasCrashed, IsFailedOr, on_crash-crash, dispose-crash,
  client_turn-IsFailedOr, last-crash,
}

module _ {V P : Type 0} where
  -- Nothing is pending, and the Worker has been terminated once.
  abbrev pub IsStopped : EngineClient V P → Type 0
  IsStopped c = (c.pending ≡ []) × (c.is_released ≡ true) × (c.terminations ≡ 1)

  expired-HasCrashed :
      (reason : Text) (o : Option EngineRequest) (c : EngineClient V P)
      → HasCrashed c
      → HasCrashed (expired reason o c)
  expired-HasCrashed reason none c dead = dead
  expired-HasCrashed reason (some request) c dead = on_crash-crash reason _

  note-HasCrashed :
      (kind : Kind) (id : ℕ) (progress : P) (c : EngineClient V P)
      → HasCrashed c
      → HasCrashed (note kind id progress c)
  note-HasCrashed sync id progress c dead = dead
  note-HasCrashed read_file id progress c dead = dead
  note-HasCrashed clear id progress c dead = dead

  reply-HasCrashed :
      (response : EngineResponse V P) (o : Option EngineRequest) (c : EngineClient V P)
      → HasCrashed c
      → HasCrashed (reply response o c)
  reply-HasCrashed response none c dead = dead
  reply-HasCrashed (sync_progress id progress) (some p) c dead =
      note-HasCrashed p.kind id progress c dead
  reply-HasCrashed (sync_ok id v) (some p) c dead = dead
  reply-HasCrashed (read_file_ok id bytes) (some p) c dead = dead
  reply-HasCrashed (clear_ok id) (some p) c dead = dead
  reply-HasCrashed (engine_err id detail) (some p) c dead = dead

  send-HasCrashed :
      (kind : Kind) (refusal : Option Text) (c : EngineClient V P)
      → HasCrashed c
      → HasCrashed (send kind refusal c)
  unfolding send
  send-HasCrashed kind refusal c dead = sent c.crash dead
    where
      sent :
          (o : Option Text)
          → IsCrashed o
          → HasCrashed (
              send_unless o
                (record { id = suc c.next_id; kind = kind })
                refusal
                (record c { next_id = suc c.next_id; crash = o }))
      sent (some e) k = tt
      sent none k = absurd k

  client_turn-HasCrashed :
      (event : ClientEvent V P) (c : EngineClient V P)
      → HasCrashed c
      → HasCrashed (client_turn event c)
  unfolding client_turn on_message deadline
  client_turn-HasCrashed (called kind refusal) c dead = send-HasCrashed kind refusal c dead
  client_turn-HasCrashed (received response) c dead = reply-HasCrashed response _ c dead
  client_turn-HasCrashed (failed reason) c dead = on_crash-crash reason c
  client_turn-HasCrashed (idle id reason) c dead = expired-HasCrashed reason _ c dead
  client_turn-HasCrashed disposed c dead = dispose-crash c (inl dead)

  client_run-HasCrashed :
      (events : List (ClientEvent V P)) (c : EngineClient V P)
      → HasCrashed c
      → HasCrashed (client_run events c)
  unfolding client_run
  client_run-HasCrashed [] c dead = dead
  client_run-HasCrashed (event ∷ events) c dead =
      client_run-HasCrashed events _ (client_turn-HasCrashed event c dead)

  client_run-IsFailedOr :
      (events : List (ClientEvent V P)) (c : EngineClient V P)
      → IsFailedOr c
      → IsFailedOr (client_run events c)
        × (has_last events ≡ true → HasCrashed (client_run events c))
  unfolding client_run
  client_run-IsFailedOr [] c h = (h, λ e. absurd (cc))
  client_run-IsFailedOr (event ∷ events) c h =
      let (after_it, later) =
        client_run-IsFailedOr events (client_turn event c) (client_turn-IsFailedOr event c h) in
      (after_it, here (is_last event) refl later)
    where
      here :
          (b : Bool)
          → is_last event ≡ b
          → (has_last events ≡ true → HasCrashed (client_run events (client_turn event c)))
          → (if b then true else has_last events) ≡ true
          → HasCrashed (client_run events (client_turn event c))
      here true e later k = client_run-HasCrashed events _ (last-crash event c e h)
      here false e later k = later k

  IsStopped-by : (c : EngineClient V P) → IsAccounted c → HasCrashed c → IsStopped c
  IsStopped-by c h dead = go c.crash h.latched dead
    where
      go :
          (o : Option Text)
          → IsLatched o c.pending c.is_released c.terminations
          → IsCrashed o
          → IsStopped c
      go none l k = absurd k
      go (some e) l k = l

  -- It has stopped; or no promise has been rejected.
  abbrev pub IsStoppedOr : EngineClient V P → Type 0
  IsStoppedOr c = IsStopped c ⊎ All (λ s. is_resolved s.1 ≡ true) c.settled

  -- It has stopped, where the test says so.
  abbrev pub IsStoppedIf : Bool → EngineClient V P → Type 0
  IsStoppedIf true c = IsStopped c
  IsStoppedIf false c = Unit

  abbrev pub is_pending : EngineClient V P → ℕ → Bool
  is_pending c id = elim (find_pending c.pending id) [ none ↦ false | some request ↦ true ]

  stopped_if : (b : Bool) (c : EngineClient V P) → (b ≡ true → IsStopped c) → IsStoppedIf b c
  stopped_if true c h = h refl
  stopped_if false c h = tt

  deadline-IsStoppedIf :
      (id : ℕ) (reason : Text) (c : EngineClient V P)
      → IsAccounted c
      → IsStoppedIf (is_pending c id) (deadline id reason c)
  unfolding deadline client_turn
  deadline-IsStoppedIf id reason c h =
      go (find_pending c.pending id) (turn-IsAccounted (idle id reason) c h)
    where
      go :
          (o : Option EngineRequest)
          → IsAccounted (expired reason o c)
          → IsStoppedIf (elim o [ none ↦ false | some request ↦ true ]) (expired reason o c)
      go none k = tt
      go (some request) k = IsStopped-by _ k (on_crash-crash reason _)

  -- Whatever the callers, the Worker and the timers do, and in whatever order. Every request that was
  -- given an id is pending or its promise has been settled, once in all, and no other is; a promise
  -- that resolves gets a reply with the id of its own request. The Worker is terminated once at most.
  -- After a failure of the Worker, a dispose or a request that could not be posted, no request is
  -- pending and the Worker has been terminated exactly once; so it is after any promise was rejected;
  -- and so it is when the deadline of a pending request passes next.
  pub client_run-IsAccounted :
      (events : List (ClientEvent V P))
      → IsAccounted (client_run events new_client)
        × IsStoppedIf (has_last events) (client_run events new_client)
        × IsStoppedOr (client_run events new_client)
        × ((id : ℕ) (reason : Text)
            → IsStoppedIf
                (is_pending (client_run events new_client) id)
                (deadline id reason (client_run events new_client)))
  client_run-IsAccounted events =
      let accounted = client_run-IsAccounted_from events new_client new_client-IsAccounted in
      let (state, later) = client_run-IsFailedOr events new_client (inr (refl, tt)) in
      (
        accounted,
        stopped_if _ _ (λ k. IsStopped-by _ accounted (later k)),
        either accounted state,
        λ id reason. deadline-IsStoppedIf id reason _ accounted,
      )
    where
      either : {c : EngineClient V P} → IsAccounted c → IsFailedOr c → IsStoppedOr c
      either h (inl dead) = inl (IsStopped-by _ h dead)
      either h (inr (standing, fine)) = inr fine
