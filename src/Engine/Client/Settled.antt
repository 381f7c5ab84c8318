-- ===== src/Engine/Client/Settled.antt =====
-- engine/client.ts: every promise of EngineClient is settled once.
use edgeproc_browser.Base.{
  codes, subst, ◌⊎◌, ℕ, suc, ◌+◌, ◌≤◌, ◌≡◌, refl, ap, Bool, true, false, Option, none, some, List,
  [], ◌∷◌, ◌++◌, map, ◌==◌, if◌then◌else◌, Text, All, sum_by, arith, Bool-cases, inl, inr, ==_iff,
  sym,
}
use edgeproc_browser.Engine.Client.{
  engine_err, clear_ok, read_file_ok, sync_ok, sync_progress, reply, post, note, idle, failed,
  received, called, send_unless, dispose, expired, Kind, client_turn, ClientEvent, client_run,
  new_client, on_message, send, deadline, settle_one, EngineClient, disposed, sync, read_file,
  clear, EngineRequest, EngineResponse, Settlement, resolved, timed_out, response_id, without,
  find_pending, rejected, release_worker, on_crash, first_crash,
}
use edgeproc_browser.Engine.Client.Counts.{
  pending_times, settled_times, given, given_most, given_next, sum_by-without, find_pending-id,
  sum_by-last,
}

-- After a failure nothing is pending and the Worker has been terminated once; before, never.
abbrev pub IsLatched : Option Text → List EngineRequest → Bool → ℕ → Type 0
IsLatched none pending is_released terminations = (is_released ≡ false) × (terminations ≡ 0)
IsLatched (some e) pending is_released terminations =
    (pending ≡ []) × (is_released ≡ true) × (terminations ≡ 1)

module _ {V P : Type 0} where
  -- A promise that resolves gets a reply with its own id.
  abbrev pub IsOwn : ℕ × Settlement V P → Type 0
  IsOwn (id, resolved response) = response_id response ≡ id
  IsOwn (id, _) = Unit

  pub record IsAccounted (c : EngineClient V P) : Type 0 where
    pub once :
        (k : ℕ)
        → sum_by (pending_times k) c.pending + sum_by (settled_times k) c.settled
          ≡ given c.next_id k
    pub own : All IsOwn c.settled
    pub latched : IsLatched c.crash c.pending c.is_released c.terminations

  sum_by-rejected :
      (e : Text) (ps : List EngineRequest) (s : List (ℕ × Settlement V P)) (k : ℕ)
      → sum_by (settled_times k) (map (rejected e) ps ++ s)
        ≡ sum_by (pending_times k) ps + sum_by (settled_times k) s
  sum_by-rejected e [] s k = omega arith
  sum_by-rejected e (p ∷ ps) s k = omega (arith, sum_by-rejected e ps s k)

  IsOwn-rejected :
      (e : Text) (ps : List EngineRequest) (s : List (ℕ × Settlement V P))
      → All IsOwn s
      → All IsOwn (map (rejected e) ps ++ s)
  IsOwn-rejected e [] s h = h
  IsOwn-rejected e (p ∷ ps) s h = (tt, IsOwn-rejected e ps s h)

  release_worker-IsAccounted :
      (c : EngineClient V P) (e : Text) (ps : List EngineRequest) (o : Option Text)
      → IsLatched o ps c.is_released c.terminations
      → c.crash ≡ some e
      → c.pending ≡ []
      → ((k : ℕ)
          → sum_by (pending_times k) c.pending + sum_by (settled_times k) c.settled
            ≡ given c.next_id k)
      → All IsOwn c.settled
      → IsAccounted (release_worker c)
  unfolding release_worker
  release_worker-IsAccounted c e ps none (fresh, zero_times) dead empty once own =
      rw fresh
        (record { once = once; own = own; latched = rw dead (empty, refl, ap suc zero_times) })
  release_worker-IsAccounted c e ps (some f) (none_there, gone, one_time) dead empty once own =
      rw gone (record { once = once; own = own; latched = rw dead (empty, refl, one_time) })

  on_crash-IsAccounted :
      (reason : Text) (c : EngineClient V P) → IsAccounted c → IsAccounted (on_crash reason c)
  unfolding on_crash
  on_crash-IsAccounted reason c h =
      let e = first_crash c.crash reason in
      release_worker-IsAccounted _ e c.pending c.crash h.latched refl refl
        (λ k. omega (arith, h.once k, sum_by-rejected e c.pending c.settled k))
        (IsOwn-rejected e c.pending c.settled h.own)

  settle_one-IsAccounted :
      (id : ℕ) (s : Settlement V P) (p : EngineRequest) (c : EngineClient V P)
      → find_pending c.pending id ≡ some p
      → IsOwn (id, s)
      → IsAccounted c
      → IsAccounted (settle_one id s c)
  settle_one-IsAccounted id s p c found fits h =
      let (same, there) = find_pending-id c.pending id p found in
      record {
        once = λ k. settled_at k (Bool-cases (id == k)) (h.once k) there;
        own = (fits, h.own);
        latched = still c.crash h.latched there;
      }
    where
      settled_at :
          (k : ℕ)
          → ((id == k) ≡ true) ⊎ ((id == k) ≡ false)
          → sum_by (pending_times k) c.pending + sum_by (settled_times k) c.settled
            ≡ given c.next_id k
          → 1 ≤ sum_by (pending_times id) c.pending
          → sum_by (pending_times k) (without c.pending id)
              + sum_by (settled_times k) ((id, s) ∷ c.settled)
            ≡ given c.next_id k
      settled_at k (inl e) total there =
          let one =
            subst (λ (j : ℕ). 1 ≤ sum_by (pending_times j) c.pending) ((==_iff id k).0 e) there in
          let most = given_most c.next_id k in
          let fewer = sum_by-without c.pending id k in
          rw e (omega (arith, total, one, most, rw e at fewer))
      settled_at k (inr e) total there =
          let fewer = sum_by-without c.pending id k in rw e (omega (arith, total, rw e at fewer))

      still :
          (o : Option Text)
          → IsLatched o c.pending c.is_released c.terminations
          → 1 ≤ sum_by (pending_times id) c.pending
          → IsLatched o (without c.pending id) c.is_released c.terminations
      still none l there = l
      still (some e) (empty, gone, once) there =
          absurd (omega (arith, ap (sum_by (pending_times id)) empty, there))

  post-IsAccounted :
      (refusal : Option Text) (c : EngineClient V P) → IsAccounted c → IsAccounted (post refusal c)
  post-IsAccounted none c h = h
  post-IsAccounted (some reason) c h = on_crash-IsAccounted reason c h

  send-IsAccounted :
      (kind : Kind) (refusal : Option Text) (c : EngineClient V P)
      → IsAccounted c
      → IsAccounted (send kind refusal c)
  unfolding send
  send-IsAccounted kind refusal c h = sent c.crash h.latched
    where
      sent :
          (o : Option Text)
          → IsLatched o c.pending c.is_released c.terminations
          → IsAccounted (
              send_unless o
                (record { id = suc c.next_id; kind = kind })
                refusal
                (record c { next_id = suc c.next_id; crash = o }))
      sent (some e) latch = record {
        once = λ k. omega (arith, h.once k, given_next c.next_id k);
        own = (tt, h.own);
        latched = latch;
      }
      sent none latch = post-IsAccounted refusal _ (record {
        once = λ k. omega (
          arith,
          h.once k,
          given_next c.next_id k,
          sum_by-last c.pending (record { id = suc c.next_id; kind = kind }) k,
        );
        own = h.own;
        latched = latch;
      })

  deadline-IsAccounted :
      (id : ℕ) (reason : Text) (c : EngineClient V P)
      → IsAccounted c
      → IsAccounted (deadline id reason c)
  unfolding deadline
  deadline-IsAccounted id reason c h = after_it (find_pending c.pending id) refl
    where
      after_it :
          (o : Option EngineRequest)
          → find_pending c.pending id ≡ o
          → IsAccounted (expired reason o c)
      after_it none e = h
      after_it (some p) e =
          let (own, there) = find_pending-id c.pending id p e in
          on_crash-IsAccounted reason _ (
            settle_one-IsAccounted p.id (timed_out p.kind) p c
              (subst (λ (j : ℕ). find_pending c.pending j ≡ some p) (sym own) e) tt h)

  note-IsAccounted :
      (kind : Kind) (id : ℕ) (progress : P) (c : EngineClient V P)
      → IsAccounted c
      → IsAccounted (note kind id progress c)
  note-IsAccounted sync id progress c h = record { once = h.once; own = h.own; latched = h.latched }
  note-IsAccounted read_file id progress c h = h
  note-IsAccounted clear id progress c h = h

  on_message-IsAccounted :
      (response : EngineResponse V P) (c : EngineClient V P)
      → IsAccounted c
      → IsAccounted (on_message response c)
  unfolding on_message response_id
  on_message-IsAccounted response c h =
      replied response (find_pending c.pending (response_id response)) refl
    where
      replied :
          (r : EngineResponse V P) (o : Option EngineRequest)
          → find_pending c.pending (response_id r) ≡ o
          → IsAccounted (reply r o c)
      replied r none e = h
      replied (sync_progress id progress) (some p) e = note-IsAccounted p.kind id progress c h
      replied (sync_ok id v) (some p) e =
          settle_one-IsAccounted id (resolved (sync_ok id v)) p c e refl h
      replied (read_file_ok id bytes) (some p) e =
          settle_one-IsAccounted id (resolved (read_file_ok id bytes)) p c e refl h
      replied (clear_ok id) (some p) e =
          settle_one-IsAccounted id (resolved (clear_ok id)) p c e refl h
      replied (engine_err id detail) (some p) e =
          settle_one-IsAccounted id (resolved (engine_err id detail)) p c e refl h

  pub turn-IsAccounted :
      (event : ClientEvent V P) (c : EngineClient V P)
      → IsAccounted c
      → IsAccounted (client_turn event c)
  unfolding client_turn dispose
  turn-IsAccounted (called kind refusal) c h = send-IsAccounted kind refusal c h
  turn-IsAccounted (received response) c h = on_message-IsAccounted response c h
  turn-IsAccounted (failed reason) c h = on_crash-IsAccounted reason c h
  turn-IsAccounted (idle id reason) c h = deadline-IsAccounted id reason c h
  turn-IsAccounted disposed c h = dispose-IsAccounted c.is_disposed
    where
      dispose-IsAccounted :
          (b : Bool)
          → IsAccounted (
              if b
              then c
              else on_crash (codes "engine worker disposed") (record c { is_disposed = true }))
      dispose-IsAccounted true = h
      dispose-IsAccounted false =
          on_crash-IsAccounted _ _ (record { once = h.once; own = h.own; latched = h.latched })

  pub client_run-IsAccounted_from :
      (events : List (ClientEvent V P)) (c : EngineClient V P)
      → IsAccounted c
      → IsAccounted (client_run events c)
  unfolding client_run
  client_run-IsAccounted_from [] c h = h
  client_run-IsAccounted_from (event ∷ events) c h =
      client_run-IsAccounted_from events (client_turn event c) (turn-IsAccounted event c h)

  pub new_client-IsAccounted : IsAccounted new_client
  new_client-IsAccounted = record { once = λ k. ground arith; own = tt; latched = (refl, refl) }
