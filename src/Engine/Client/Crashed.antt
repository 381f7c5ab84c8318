-- ===== src/Engine/Client/Crashed.antt =====
-- engine/client.ts: what one turn of an EngineClient makes of its failure, and of its promises.
use edgeproc_browser.Base.{
  ℕ, suc, ◌≡◌, ◌⊎◌, inl, inr, refl, sym, subst, Bool, true, false, Option, none, some, List, [],
  ◌∷◌, Text, All, codes, Bool-cases, if◌then◌else◌,
}
use edgeproc_browser.Engine.Client.{
  Kind, sync, read_file, clear, EngineRequest, EngineResponse, sync_ok, sync_progress, read_file_ok,
  clear_ok, engine_err, Settlement, resolved, EngineClient, response_id, release_worker, on_crash,
  settle_one, expired, deadline, note, reply, on_message, post, send_unless, send, dispose,
  ClientEvent, called, received, failed, idle, disposed, client_turn,
}

abbrev pub IsCrashed : Option Text → Type 0
IsCrashed none = ⊥
IsCrashed (some e) = Unit

module _ {V P : Type 0} where
  -- An event after which the client is of no more use: a failure of the Worker, dispose, or a request
  -- that could not be posted.
  abbrev pub is_last : ClientEvent V P → Bool
  is_last (failed reason) = true
  is_last disposed = true
  is_last (called kind (some reason)) = true
  is_last _ = false

  abbrev pub has_last : List (ClientEvent V P) → Bool
  has_last [] = false
  has_last (event ∷ events) = if is_last event then true else has_last events

  abbrev pub is_resolved : Settlement V P → Bool
  is_resolved (resolved response) = true
  is_resolved _ = false

  abbrev pub HasCrashed : EngineClient V P → Type 0
  HasCrashed c = IsCrashed c.crash

  -- It has failed; or it has not been disposed of, and no promise has been rejected.
  abbrev pub IsFailedOr : EngineClient V P → Type 0
  IsFailedOr c =
      IsCrashed c.crash ⊎ ((c.is_disposed ≡ false) × All (λ s. is_resolved s.1 ≡ true) c.settled)

  release_worker-crash : (c : EngineClient V P) → (release_worker c).crash ≡ c.crash
  unfolding release_worker
  release_worker-crash c = elim (Bool-cases c.is_released) [ inl e ↦ rw e refl | inr e ↦ rw e refl ]

  pub on_crash-crash : (reason : Text) (c : EngineClient V P) → IsCrashed (on_crash reason c).crash
  unfolding on_crash
  on_crash-crash reason c = subst IsCrashed (sym (release_worker-crash _)) tt

  expired-IsFailedOr :
      (reason : Text) (o : Option EngineRequest) (c : EngineClient V P)
      → IsFailedOr c
      → IsFailedOr (expired reason o c)
  expired-IsFailedOr reason none c h = h
  expired-IsFailedOr reason (some request) c h = inl (on_crash-crash reason _)

  note-IsFailedOr :
      (kind : Kind) (id : ℕ) (progress : P) (c : EngineClient V P)
      → IsFailedOr c
      → IsFailedOr (note kind id progress c)
  note-IsFailedOr sync id progress c h = h
  note-IsFailedOr read_file id progress c h = h
  note-IsFailedOr clear id progress c h = h

  settle_one-IsFailedOr :
      (id : ℕ) (response : EngineResponse V P) (c : EngineClient V P)
      → IsFailedOr c
      → IsFailedOr (settle_one id (resolved response) c)
  settle_one-IsFailedOr id response c (inl dead) = inl dead
  settle_one-IsFailedOr id response c (inr (standing, fine)) = inr (standing, (refl, fine))

  reply-IsFailedOr :
      (response : EngineResponse V P) (o : Option EngineRequest) (c : EngineClient V P)
      → IsFailedOr c
      → IsFailedOr (reply response o c)
  unfolding response_id
  reply-IsFailedOr response none c h = h
  reply-IsFailedOr (sync_progress id progress) (some p) c h = note-IsFailedOr p.kind id progress c h
  reply-IsFailedOr (sync_ok id v) (some p) c h = settle_one-IsFailedOr id (sync_ok id v) c h
  reply-IsFailedOr (read_file_ok id bytes) (some p) c h =
      settle_one-IsFailedOr id (read_file_ok id bytes) c h
  reply-IsFailedOr (clear_ok id) (some p) c h = settle_one-IsFailedOr id (clear_ok id) c h
  reply-IsFailedOr (engine_err id detail) (some p) c h =
      settle_one-IsFailedOr id (engine_err id detail) c h

  post-IsFailedOr :
      (refusal : Option Text) (c : EngineClient V P) → IsFailedOr c → IsFailedOr (post refusal c)
  post-IsFailedOr none c h = h
  post-IsFailedOr (some reason) c h = inl (on_crash-crash reason c)

  send-IsFailedOr :
      (kind : Kind) (refusal : Option Text) (c : EngineClient V P)
      → IsFailedOr c
      → IsFailedOr (send kind refusal c)
  unfolding send
  send-IsFailedOr kind refusal c h = sent c.crash h
    where
      sent :
          (o : Option Text)
          → IsCrashed o ⊎ ((c.is_disposed ≡ false) × All (λ s. is_resolved s.1 ≡ true) c.settled)
          → IsFailedOr (
              send_unless o
                (record { id = suc c.next_id; kind = kind })
                refusal
                (record c { next_id = suc c.next_id; crash = o }))
      sent (some e) h = inl tt
      sent none h = post-IsFailedOr refusal _ h

  pub dispose-crash : (c : EngineClient V P) → IsFailedOr c → IsCrashed (dispose c).crash
  unfolding dispose
  dispose-crash c h = go c.is_disposed h
    where
      go :
          (b : Bool)
          → IsCrashed c.crash ⊎ ((b ≡ false) × All (λ s. is_resolved s.1 ≡ true) c.settled)
          → HasCrashed (
              if b
              then c
              else on_crash (codes "engine worker disposed") (record c { is_disposed = true }))
      go true (inl dead) = dead
      go true (inr (standing, fine)) = absurd (cc)
      go false h = on_crash-crash _ _

  pub client_turn-IsFailedOr :
      (event : ClientEvent V P) (c : EngineClient V P)
      → IsFailedOr c
      → IsFailedOr (client_turn event c)
  unfolding client_turn on_message deadline
  client_turn-IsFailedOr (called kind refusal) c h = send-IsFailedOr kind refusal c h
  client_turn-IsFailedOr (received response) c h = reply-IsFailedOr response _ c h
  client_turn-IsFailedOr (failed reason) c h = inl (on_crash-crash reason c)
  client_turn-IsFailedOr (idle id reason) c h = expired-IsFailedOr reason _ c h
  client_turn-IsFailedOr disposed c h = inl (dispose-crash c h)

  -- The same of its last events.
  pub last-crash :
      (event : ClientEvent V P) (c : EngineClient V P)
      → is_last event ≡ true
      → IsFailedOr c
      → IsCrashed (client_turn event c).crash
  unfolding client_turn send
  last-crash (failed reason) c e h = on_crash-crash reason c
  last-crash disposed c e h = dispose-crash c h
  last-crash (called kind (some reason)) c e h = sent c.crash
    where
      sent :
          (o : Option Text)
          → HasCrashed (
              send_unless o
                (record { id = suc c.next_id; kind = kind })
                (some reason)
                (record c { next_id = suc c.next_id; crash = o }))
      sent (some x) = tt
      sent none = on_crash-crash reason _
  last-crash (called kind none) c e h = absurd (cc)
  last-crash (received response) c e h = absurd (cc)
  last-crash (idle id reason) c e h = absurd (cc)
