-- ===== src/Manager.antt =====
-- impl/utils.go and impl/events.go: what the manager of a node does with a report that touches only
-- its channels. `self` is `m.peerID`.
pub mod Control
pub mod World
pub mod Reports
pub mod Outcomes
pub mod Requests
pub mod Restart
pub mod Rules
pub mod Commands
pub mod Lifecycle
pub mod Receiver
use go_data_transfer.Base.{
  ◌≡◌, ℕ, ℤ, Bool, true, false, not, ◌&&◌, ◌||◌, Option, none, some, String, ◌==◌, if◌then◌else◌,
}
use go_data_transfer.Statuses.{status_eq, failing, failed}
use go_data_transfer.Types.{Peer, Cid, Node, TypedVoucher, ChannelId}
use go_data_transfer.Errors.{Err, Result, ok, err, pause, channel_not_found, is_pause}
use go_data_transfer.Channels.Internal.{ChannelState}
use go_data_transfer.Channels.State.{self_paused}
use go_data_transfer.Channels.Group.{Group}
use go_data_transfer.Channels.Ops.{Channels, Op, when, fail, ◌>>◌, cancel, get_by_id, has_channel}
use go_data_transfer.Channels.Ops.Named.{
  accept, restart, channel_opened, transfer_initiated, pause_initiator, pause_responder,
  resume_initiator, resume_responder, new_voucher_result, error, finish_transfer,
  responder_completes, responder_begins_finalization, begin_finalizing, complete, disconnected,
  request_cancelled, send_data_error, receive_data_error,
}
use go_data_transfer.Channels.Ops.Progress.{data_received, data_queued, data_sent}
use go_data_transfer.Messages.Request.{TransferRequest}
use go_data_transfer.Messages.Response.{
  TransferResponse, is_cancel, is_new, is_restart, is_complete, is_validation_result,
  voucher_result, empty_voucher_result,
}
use go_data_transfer.Messages.Build.{
  update_request, update_response, cancel_request, cancel_response, complete_response,
}
use go_data_transfer.Messages.Wire.{Message, a_request, a_response}

module _ (g : Group) (self : Peer) where
  abbrev pub resume_own : ChannelId → Op g
  resume_own chid =
      if chid.initiator == self then resume_initiator g chid else resume_responder g chid

  abbrev pub pause_own : ChannelId → Op g
  pause_own chid = if chid.initiator == self then pause_initiator g chid else pause_responder g chid

  abbrev pub resume_other : ChannelId → Op g
  resume_other chid =
      if chid.responder == self then resume_initiator g chid else resume_responder g chid

  abbrev pub pause_other : ChannelId → Op g
  pause_other chid =
      if chid.responder == self then pause_initiator g chid else pause_responder g chid

  abbrev pub resume_message : ChannelId → Message
  resume_message chid =
      if chid.initiator == self
      then a_request (update_request chid.id false)
      else a_response (update_response chid.id false)

  abbrev pub pause_message : ChannelId → Message
  pause_message chid =
      if chid.initiator == self
      then a_request (update_request chid.id true)
      else a_response (update_response chid.id true)

  abbrev pub cancel_message : ChannelId → Message
  cancel_message chid =
      if chid.initiator == self
      then a_request (cancel_request chid.id)
      else a_response (cancel_response chid.id)

  abbrev pub on_channel_opened : ChannelId → Op g
  on_channel_opened chid c = elim (has_channel g c chid) [
    | err e ↦ (c, some e)
    | ok has ↦ if not has then (c, some channel_not_found) else channel_opened g chid c
  ]

  -- The voucher result of a response is saved, if it has one.
  abbrev pub save_voucher_result : ChannelId → TransferResponse → Op g
  save_voucher_result chid response =
      if empty_voucher_result response then (λ c. (c, none)) else elim (voucher_result response) [
        | err e ↦ fail e
        | ok v ↦
            new_voucher_result g chid
              (record { voucher = some v; type_id = response.voucher_type_identifier })
      ]

  -- The end of `OnResponseReceived`, behind `m.resumeOther`.
  abbrev pub check_self_paused : ChannelId → Op g
  check_self_paused chid c = (
    c,
    elim (get_by_id g c chid) [
      | err e ↦ some e
      | ok chst ↦ if self_paused chst then some pause else none
    ],
  )

  abbrev pub control_other : ChannelId → TransferResponse → Op g
  control_other chid response =
      if response.paused then pause_other chid else (resume_other chid >> check_self_paused chid)

  abbrev pub finish_response : ChannelId → TransferResponse → Op g
  finish_response chid response =
      if is_complete response
      then (if not response.paused
          then responder_completes g chid
          else (responder_begins_finalization g chid >> control_other chid response))
      else control_other chid response

  unfoldable pub on_response_received : ChannelId → TransferResponse → Op g
  on_response_received chid response =
      if is_cancel response
      then cancel g chid
      else (when (is_validation_result response) (save_voucher_result chid response)
          >> (if is_validation_result response && not response.request_accepted
              then error g chid "response rejected"
              else (when (is_new response) (accept g chid)
                  >> when (is_restart response) (restart g chid)
                  >> finish_response chid response)))

  abbrev pub on_data_sent : ChannelId → Cid → ℕ → ℤ → Bool → Op g
  on_data_sent chid k size index unique = data_sent g chid k size index unique

  -- The error is dropped.
  abbrev pub on_transfer_initiated : ChannelId → Channels g → Channels g
  on_transfer_initiated chid c = (transfer_initiated g chid c).0

  abbrev pub on_request_cancelled : ChannelId → String → Op g
  on_request_cancelled chid text = request_cancelled g chid text

  abbrev pub on_send_data_error : ChannelId → String → Op g
  on_send_data_error chid text = send_data_error g chid text

  abbrev pub on_receive_data_error : ChannelId → String → Op g
  on_receive_data_error chid text = receive_data_error g chid text

  abbrev pub on_request_disconnected : ChannelId → String → Op g
  on_request_disconnected chid text = disconnected g chid text

  -- The message to return, and the error.
  unfoldable pub on_data_queued :
      ChannelId → Cid → ℕ → ℤ → Bool → Channels g → Channels g × Option Message × Option Err
  on_data_queued chid k size index unique c =
      let (c', e) = data_queued g chid k size index unique c in
      (c', if is_pause e then some (a_response (update_response chid.id true)) else none, e)
