-- ===== src/Manager/Commands/ValidationUpdate.antt =====
-- The update of a validation by the client, in impl/impl.go.
use go_data_transfer.Base.{Bool, false, not, ◌&&◌, Option, none, some, ◌==◌, if◌then◌else◌}
use go_data_transfer.Statuses.{status_eq, finalizing, in_finalization}
use go_data_transfer.Types.{ChannelId}
use go_data_transfer.Errors.{Err, other}
use go_data_transfer.Channels.Internal.{ChannelState}
use go_data_transfer.Channels.State.{channel_id, responder_paused}
use go_data_transfer.Channels.Group.{Group}
use go_data_transfer.Validation.{ValidationResult, leave_request_paused}
use go_data_transfer.Messages.{voucher_result_message, complete_message}
use go_data_transfer.Messages.Response.{TransferResponse}
use go_data_transfer.Messages.Build.{validation_result_response}
use go_data_transfer.Messages.Wire.{Message, a_response}
use go_data_transfer.Manager.World.{
  Setup, Step, send_message, close_transfer, pause_transfer, resume_transfer, ◌>>=◌, ◌>>◌, done,
  panic, attempt, call, fetch, asserting_pauseable,
}
use go_data_transfer.Manager.Outcomes.{
  record_accepted_validation_events, record_rejected_validation_events,
}

module _ (g : Group) (p : Setup) where
  -- On an error the channel and the response are nil.
  unfoldable pub process_validation_update :
      ChannelId
      → ValidationResult
      → Step g (Option ChannelState × Option TransferResponse × Option Err)
  process_validation_update chid result =
      fetch chid (λ e. done (none, none, some e))
        λ chst.
          attempt
            (if not result.accepted
              then record_rejected_validation_events g chid result
              else record_accepted_validation_events g chst result)
            (λ e. done (none, none, some e))
            (done (
              some chst,
              some (
                  validation_result_response p.null
                    (if status_eq chst.status finalizing
                      then complete_message
                      else voucher_result_message)
                    chst.transfer_id result none (leave_request_paused result chst)),
              none,
            ))

  -- Behind the pause test the channel is read on every path, so a nil one is a panic.
  unfoldable pub handle_transport_update :
      Option ChannelState
      → Option TransferResponse
      → ValidationResult
      → Option Err
      → Step g (Option Err)
  handle_transport_update none response result result_err = panic
  handle_transport_update (some chst) response result result_err =
      let pause_request : Bool = leave_request_paused result chst in
      let chid : ChannelId = channel_id chst in
      let accepted : Bool = elim result_err [ none ↦ result.accepted | some e ↦ false ] in
      let message : Option Message = elim response [ none ↦ none | some r ↦ some (a_response r) ] in
      if accepted && not pause_request && responder_paused chst && not (in_finalization chst.status)
      then asserting_pauseable p (call p (resume_transfer message chid))
      else attempt
          (elim message [ none ↦ done none | some m ↦ call p (send_message chid.initiator m) ])
          (λ e. done (some e))
          (if not accepted
            then (call p (close_transfer chid) >> done result_err)
            else if pause_request
                && not (responder_paused chst)
                && not (in_finalization chst.status)
            then asserting_pauseable p (call p (pause_transfer chid))
            else done none)

  unfoldable pub update_validation_status : ChannelId → ValidationResult → Step g (Option Err)
  update_validation_status chid result =
      if chid.initiator == p.peer_id
      then done (some (other "cannot send voucher result for request we initiated"))
      else (do
        (chst, response, e) ← process_validation_update chid result
        handle_transport_update chst response result e)
