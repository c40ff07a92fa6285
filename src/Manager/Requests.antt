-- ===== src/Manager/Requests.antt =====
-- impl/receiving_requests.go, and `OnRequestReceived` of impl/events.go.
pub mod Guarding
pub mod Resuming
pub mod Storing
pub mod Tracking
use go_data_transfer.Base.{Bool, false, not, Option, none, some, ◌==◌, if◌then◌else◌}
use go_data_transfer.Types.{Peer, Node, ChannelId, TypedVoucher}
use go_data_transfer.Errors.{Err, ok, err, other, wrapped, pause}
use go_data_transfer.Channels.Internal.{ChannelState}
use go_data_transfer.Channels.State.{self_paused}
use go_data_transfer.Channels.Group.{Group}
use go_data_transfer.Channels.Ops.{cancel, create_new}
use go_data_transfer.Channels.Ops.Named.{accept, restart, new_voucher}
use go_data_transfer.Registry.{processor}
use go_data_transfer.Validation.{ValidationResult, leave_request_paused}
use go_data_transfer.Messages.{new_message, restart_message}
use go_data_transfer.Messages.Request
use go_data_transfer.Messages.Request.{TransferRequest}
use go_data_transfer.Messages.Response.{TransferResponse}
use go_data_transfer.Messages.Build.{validation_result_response}
use go_data_transfer.Manager.{pause_other, resume_other}
use go_data_transfer.Manager.World.{
  Setup, Step, protect, cleanup_transfer, ◌>>=◌, ◌>>◌, done, attempt, on_channels, tell, fetch,
}
use go_data_transfer.Manager.Outcomes.{
  no_result, request_error, record_rejected_validation_events, record_accepted_validation_events,
}
use go_data_transfer.Manager.Restart.{
  validate_restart, validate_restart_request, configure_transport,
}

module _ (g : Group) (p : Setup) where
  -- The part of `acceptRequest` behind an accepted validation.
  unfoldable pub start_tracking :
      ChannelId
      → TransferRequest
      → Node
      → TypedVoucher
      → ValidationResult
      → Step g (ValidationResult × Option Err)
  start_tracking chid incoming stor voucher result s =
      let data_sender : Peer = if incoming.pull then p.peer_id else chid.initiator in
      let data_receiver : Peer = if incoming.pull then chid.initiator else p.peer_id in
      let (c, made, e) =
        create_new g p.peer_id incoming.transfer_id (Request.base_cid incoming) (some stor) voucher
          chid.initiator data_sender data_receiver s.channels in
      elim e [
        | some x ↦ done (result, some x) (record s { channels = c })
        | none ↦
            attempt (on_channels (accept g chid)) (λ x. done (result, some x))
              (fetch chid (λ x. done (no_result, some x))
                λ chst.
                  attempt (record_accepted_validation_events g chst result)
                    (λ x. done (result, some x))
                    (configure_transport chid voucher
                      >> tell (protect chid.initiator chid)
                      >> done (result, none)))
              (record s { channels = c })
      ]

  unfoldable pub accept_request :
      ChannelId → TransferRequest → Step g (ValidationResult × Option Err)
  accept_request chid incoming s = elim (Request.selector incoming) [
    | err e ↦ done (no_result, some e) s
    | ok stor ↦ elim (Request.typed_voucher incoming) [
      | err e ↦ done (no_result, some e) s
      | ok voucher ↦ elim (processor s.validated_types voucher.type_id) [
        | none ↦ done (no_result, some (other "unknown voucher type")) s
        | some validator ↦
            let (result, e) =
              (if incoming.pull then validator.validate_pull else validator.validate_push) chid
                chid.initiator voucher.voucher (Request.base_cid incoming) stor in
            elim e [
              | some x ↦ done (result, some x) s
              | none ↦
                  if not result.accepted
                  then done (result, none) s
                  else start_tracking chid incoming stor voucher result s
            ]
      ]
    ]
  ]

  -- The response to return, and the error for the transport.
  unfoldable pub receive_new_request :
      ChannelId → TransferRequest → Step g (Option TransferResponse × Option Err)
  receive_new_request chid incoming = do
    (result, e) ← accept_request chid incoming
    done (
      some (
          validation_result_response p.null new_message incoming.transfer_id result e
            result.force_pause),
      request_error result e result.force_pause,
    )

  -- The part of `restartRequest` behind an accepted validation.
  unfoldable pub resume_tracking :
      ChannelId
      → TransferRequest
      → ChannelState
      → Bool
      → ValidationResult
      → Step g (Bool × ValidationResult × Option Err)
  resume_tracking chid incoming chst stay_paused result =
      attempt (on_channels (restart g chid))
        (λ x. done (stay_paused, result, some (wrapped "failed to restart channel" x)))
        (attempt (record_accepted_validation_events g chst result)
          (λ x. done (stay_paused, result, some x))
          (elim (Request.voucher incoming) [
            | err x ↦ done (stay_paused, result, some x)
            | ok voucher ↦
                configure_transport chid
                  (record { voucher = some voucher; type_id = incoming.voucher_type_identifier })
                >> tell (protect chid.initiator chid)
                >> done (stay_paused, result, none)
          ]))

  unfoldable pub restart_request :
      ChannelId → TransferRequest → Step g (Bool × ValidationResult × Option Err)
  restart_request chid incoming s =
      if p.peer_id == chid.initiator
      then done
          (false, no_result, some (other "initiator cannot be manager peer for a restart request"))
          s
      else elim (validate_restart_request g p s.channels chid.initiator chid incoming) [
        | some x ↦
            done
              (false, no_result, some (wrapped "restart request for channel failed validation" x)) s
        | none ↦
            fetch chid (λ x. done (false, no_result, some x))
              (λ chst. do
                (result, e) ← validate_restart chst
                let stay_paused = leave_request_paused result chst
                elim e [
                  | some x ↦ done (stay_paused, result, some x)
                  | none ↦
                      if not result.accepted
                      then (do
                        e' ← record_rejected_validation_events g chid result
                        done (stay_paused, result, e'))
                      else resume_tracking chid incoming chst stay_paused result
                ])
              s
      ]

  unfoldable pub receive_restart_request :
      ChannelId → TransferRequest → Step g (Option TransferResponse × Option Err)
  receive_restart_request chid incoming = do
    (stay_paused, result, e) ← restart_request chid incoming
    done (
      some (
          validation_result_response p.null restart_message incoming.transfer_id result e
            stay_paused),
      request_error result e result.force_pause,
    )

  unfoldable pub process_update_voucher :
      ChannelId → TransferRequest → Step g (Option TransferResponse × Option Err)
  process_update_voucher chid request = elim (Request.typed_voucher request) [
    | err e ↦ done (none, some e)
    | ok voucher ↦ (do e ← on_channels (new_voucher g chid voucher); done (none, e))
  ]

  unfoldable pub receive_update_request :
      ChannelId → TransferRequest → Step g (Option TransferResponse × Option Err)
  receive_update_request chid request =
      if request.pause
      then (do e ← on_channels (pause_other g p.peer_id chid); done (none, e))
      else attempt (on_channels (resume_other g p.peer_id chid)) (λ x. done (none, some x))
          (fetch chid (λ x. done (none, some x))
            λ chst. done (none, if self_paused chst then some pause else none))

  unfoldable pub on_request_received :
      ChannelId → TransferRequest → Step g (Option TransferResponse × Option Err)
  on_request_received chid request =
      if Request.is_restart request
      then receive_restart_request chid request
      else if Request.is_new request
      then receive_new_request chid request
      else if Request.is_cancel request
      then (tell (cleanup_transfer chid) >> (do e ← on_channels (cancel g chid); done (none, e)))
      else if Request.is_voucher request
      then process_update_voucher chid request
      else receive_update_request chid request
