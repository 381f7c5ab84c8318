-- ===== src/Tests/Calling.antt =====
-- The engine client on a few turns.
use edgeproc_browser.Base.{Text, ℕ, ◌≡◌, refl, none, List, [], ◌∷◌, codes, err}
use edgeproc_browser.Engine.Client.{
  timed_out, ClientEvent, sync, read_file, clear, sync_progress, read_file_ok, clear_ok, called,
  received, idle, disposed, client_run, new_client, resolved, crashed, client_turn, send,
  on_message, on_crash, deadline, dispose, release_worker, find_pending, without, response_id,
  sync_result, unexpected_kind,
}
use edgeproc_browser.Engine.Client.Settled.{IsAccounted}
use edgeproc_browser.Engine.Client.Crashed.{has_last}
use edgeproc_browser.Engine.Client.Ended.{
  IsStoppedIf, is_pending, IsStoppedOr, client_run-IsAccounted,
}

-- The second call is answered first, the first one is idle for too long, and the third comes after.
abbrev calls : List (ClientEvent ℕ ℕ)
calls =
    called sync none
    ∷ called read_file none
    ∷ received (sync_progress 1 7)
    ∷ received (read_file_ok 2 [])
    ∷ received (clear_ok 9)
    ∷ idle 1 (codes "idle")
    ∷ idle 2 (codes "idle")
    ∷ called clear none
    ∷ disposed
    ∷ []

client_run-IsAccounted_example :
    IsAccounted (client_run calls new_client)
    × IsStoppedIf (has_last calls) (client_run calls new_client)
    × IsStoppedOr (client_run calls new_client)
    × ((id : ℕ) (reason : Text)
        → IsStoppedIf
            (is_pending (client_run calls new_client) id)
            (deadline id reason (client_run calls new_client)))
client_run-IsAccounted_example = client_run-IsAccounted calls

three_settled :
    (client_run calls new_client).settled
    ≡ ((3, crashed (codes "idle")) ∷ (1, timed_out sync) ∷ (2, resolved (read_file_ok 2 [])) ∷ [])
unfolding client_run client_turn dispose send deadline find_pending on_message response_id without
    on_crash release_worker
three_settled = refl

one_termination : (client_run calls new_client).terminations ≡ 1
unfolding client_run client_turn dispose send deadline find_pending on_message response_id without
    on_crash release_worker
one_termination = refl

seven_observed : (client_run calls new_client).observed ≡ ((1, 7) ∷ [])
unfolding client_run client_turn dispose send deadline find_pending on_message response_id without
    on_crash release_worker
seven_observed = refl

another_kind : sync_result {V = ℕ} {P = ℕ} (clear_ok 1) ≡ err unexpected_kind
unfolding sync_result
another_kind = refl
