-- ===== src/Manager/Requests/Resuming.antt =====
-- What a restart request must pass before impl/receiving_requests.go acts on it.
use go_data_transfer.Base.{false, ◌≡◌, refl, ◌⊎◌, inl, inr, some, ◌==◌, Option-cases, Bool-cases}
use go_data_transfer.Types.{ChannelId}
use go_data_transfer.Errors.{other, wrapped}
use go_data_transfer.Channels.Group.{Group}
use go_data_transfer.Messages.{restart_message}
use go_data_transfer.Messages.Request.{TransferRequest}
use go_data_transfer.Messages.Build.{validation_result_response}
use go_data_transfer.Manager.World.{Setup, Manager, done}
use go_data_transfer.Manager.Rules.{Ends, Ends-bind}
use go_data_transfer.Manager.Outcomes.{request_error}
use go_data_transfer.Manager.Restart.{validate_restart_request}
use go_data_transfer.Manager.Restart.Matching.{Matching, validate_restart_request_iff}
use go_data_transfer.Manager.Requests.{restart_request, receive_restart_request}
use go_data_transfer.Manager.Requests.Guarding.{Negative, TurnedDown, Negative-TurnedDown}

module _ {g : Group} (p : Setup) (chid : ChannelId) (incoming : TransferRequest)
    (s : Manager g) where
  -- This node is not the initiator, and the request matches the stored channel.
  abbrev pub MayRestart : Type 0
  MayRestart =
      ((p.peer_id == chid.initiator) ≡ false) × Matching g p s.channels chid.initiator chid incoming

  restart_request_cases :
      MayRestart ⊎ Ends (λ s' r. (s' ≡ s) × Negative r.1 r.2) (restart_request g p chid incoming s)
  unfolding restart_request
  restart_request_cases = elim (Bool-cases (p.peer_id == chid.initiator)) [
    | inl h ↦ inr (
        rw (h, Ends)
          (refl, inl (other "initiator cannot be manager peer for a restart request", refl)))
    | inr h ↦
        elim (Option-cases (validate_restart_request g p s.channels chid.initiator chid incoming)) [
          | inl h2 ↦
              inl
                (h, (validate_restart_request_iff g p s.channels chid.initiator chid incoming).0 h2)
          | inr (x, h2) ↦ inr (
              rw (h, h2, Ends)
                (refl, inl (wrapped "restart request for channel failed validation" x, refl)))
        ]
  ]

  -- A restart request is turned down, and nothing at all changes, unless this node is not the
  -- initiator and the request matches the stored channel.
  pub receive_restart_request_guarded :
      MayRestart
      ⊎ Ends (λ s' r. (s' ≡ s) × TurnedDown r) (receive_restart_request g p chid incoming s)
  unfolding receive_restart_request
  receive_restart_request_guarded = elim restart_request_cases [
    | inl h ↦ inl h
    | inr h ↦ inr (
        Ends-bind (λ s' r. (s' ≡ s) × Negative r.1 r.2) (λ s' r. (s' ≡ s) × TurnedDown r)
          (restart_request g p chid incoming)
          (λ (stay_paused, result, e). done (
            some (
                validation_result_response p.null restart_message incoming.transfer_id result e
                  stay_paused),
            request_error result e result.force_pause,
          ))
          s h
          λ s' (stay_paused, result, e) (same, bad). (
            same,
            Negative-TurnedDown p.null restart_message incoming.transfer_id result e stay_paused
                result.force_pause bad,
          ))
  ]
