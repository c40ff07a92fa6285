-- ===== src/Manager/Commands.antt =====
-- The calls of the user in impl/impl.go, with impl/timecounter.go and `newRequest` of impl/utils.go.
-- Subscription and start-up only pass on what they are given.
pub mod Numbering
pub mod Updating
pub mod Validating
pub mod ValidationUpdate
use go_data_transfer.Base.{
  ℕ, ◌+◌, ◌%◌, ◌^◌, Bool, true, false, not, ◌&&◌, Option, none, some, String, ◌==◌, if◌then◌else◌,
}
use go_data_transfer.Statuses.{
  Status, status_eq, finalizing, channel_not_found_error, in_finalization, is_accepted,
}
use go_data_transfer.Types.{Peer, Cid, Node, TransferId, ChannelId, TypedVoucher, other_party}
use go_data_transfer.Errors.{Err, Result, ok, err, other, wrapped, unsupported}
use go_data_transfer.Channels.Internal.{ChannelState}
use go_data_transfer.Channels.State.{channel_id, other_peer, responder_paused}
use go_data_transfer.Channels.Group.{Group}
use go_data_transfer.Channels.Ops.{create_new, cancel}
use go_data_transfer.Channels.Ops.Named.{error, new_voucher, new_voucher_result}
use go_data_transfer.Validation.{ValidationResult, leave_request_paused}
use go_data_transfer.Messages.{voucher_result_message, complete_message, no_channel}
use go_data_transfer.Messages.Request.{TransferRequest}
use go_data_transfer.Messages.Response.{TransferResponse}
use go_data_transfer.Messages.Build.{
  new_request, voucher_request, complete_response, voucher_result_response,
  validation_result_response,
}
use go_data_transfer.Messages.Wire.{Message, a_request, a_response}
use go_data_transfer.Manager.{
  on_request_disconnected, pause_own, resume_own, pause_message, resume_message, cancel_message,
}
use go_data_transfer.Manager.World.{
  Setup, Step, Call, send_message, open_transfer, close_transfer, pause_transfer, resume_transfer,
  protect, ◌>>=◌, ◌>>◌, done, panic, attempt, on_channels, call, tell, fetch, asserting_pauseable,
}
use go_data_transfer.Manager.Restart.{configure_transport, monitor_channel, stop_monitoring}
use go_data_transfer.Manager.Outcomes.{
  record_accepted_validation_events, record_rejected_validation_events,
}

-- `atomic.AddUint64(&tc.counter, 1)`
abbrev pub next : ℕ → ℕ
next counter = (counter + 1) % 2 ^ 64

abbrev pub next_transfer_id : {g : Group} → Step g TransferId
next_transfer_id s =
    some (record s { transfer_id_gen = next s.transfer_id_gen }, next s.transfer_id_gen)

module _ (g : Group) (p : Setup) where
  abbrev pub new_transfer :
      Bool → TypedVoucher → Cid → Option Node → Step g (Result TransferRequest)
  new_transfer is_pull voucher base_cid selector = do
    tid ← next_transfer_id
    done (new_request p.null tid false is_pull (some voucher) base_cid selector)

  -- An error of the call that starts the transfer ends the channel; the error of that is dropped.
  abbrev pub start_transfer :
      Call → Peer → ChannelId → TypedVoucher → Step g (ChannelId × Option Err)
  start_transfer k request_to chid voucher = do
    configure_transport chid voucher
    tell (protect request_to chid)
    made ← monitor_channel chid
    attempt (call p k)
        (λ x.
          on_channels (error g chid (p.text (wrapped "unable to send request" x)))
          >> stop_monitoring chid made
          >> done (chid, some (wrapped "unable to send request" x)))
        (done (chid, none))

  -- `CreateNew` for the request, and then the transfer by the call `k`.
  abbrev pub open_transfer_of :
      Peer
      → Peer
      → Peer
      → TypedVoucher
      → Cid
      → Option Node
      → (ChannelId → TransferRequest → Call)
      → TransferRequest
      → Step g (ChannelId × Option Err)
  open_transfer_of sender receiver request_to voucher base_cid selector k req s =
      let (c, chid, e) =
        create_new g p.peer_id req.transfer_id base_cid selector voucher p.peer_id sender receiver
          s.channels in
      elim e [
        | some x ↦ done (chid, some x) (record s { channels = c })
        | none ↦ start_transfer (k chid req) request_to chid voucher (record s { channels = c })
      ]

  unfoldable pub open_push_data_channel :
      Peer → TypedVoucher → Cid → Option Node → Step g (ChannelId × Option Err)
  open_push_data_channel request_to voucher base_cid selector = do
    r ← new_transfer false voucher base_cid selector
    elim r [
      | err e ↦ done (no_channel, some e)
      | ok req ↦
          open_transfer_of p.peer_id request_to request_to voucher base_cid selector
            (λ chid req. send_message request_to (a_request req)) req
    ]

  unfoldable pub open_pull_data_channel :
      Peer → TypedVoucher → Cid → Option Node → Step g (ChannelId × Option Err)
  open_pull_data_channel request_to voucher base_cid selector = do
    r ← new_transfer true voucher base_cid selector
    elim r [
      | err e ↦ done (no_channel, some e)
      | ok req ↦
          open_transfer_of request_to p.peer_id request_to voucher base_cid selector
            (λ chid req. open_transfer request_to chid base_cid selector none (a_request req)) req
    ]

  -- A message about a channel: if it cannot be sent the channel is disconnected, and `next` is left
  -- out. The text is that of `Errorf`.
  abbrev pub send_or_disconnect :
      Peer → Message → String → ChannelId → Step g (Option Err) → Step g (Option Err)
  send_or_disconnect to msg text chid next =
      attempt (call p (send_message to msg))
        (λ x.
          on_channels (on_request_disconnected g p.peer_id chid (p.text (wrapped text x)))
          >> done (some (wrapped text x)))
        next

  unfoldable pub send_voucher : ChannelId → TypedVoucher → Step g (Option Err)
  send_voucher chid voucher =
      fetch chid (λ e. done (some e))
        λ chst.
          if not (chid.initiator == p.peer_id)
          then done (some (other "cannot send voucher for request we did not initiate"))
          else send_or_disconnect (other_peer chst)
              (a_request (voucher_request p.null chid.id (some voucher))) "unable to send request"
              chid (on_channels (new_voucher g chid voucher))

  unfoldable pub send_voucher_result : ChannelId → TypedVoucher → Step g (Option Err)
  send_voucher_result chid result =
      fetch chid (λ e. done (some e))
        λ chst.
          if chid.initiator == p.peer_id
          then done (some (other "cannot send voucher result for request we initiated"))
          else send_or_disconnect (other_peer chst)
              (a_response (
                (if in_finalization chst.status then complete_response else voucher_result_response)
                  p.null chid.id (is_accepted chst.status) (responder_paused chst) (some result)))
              "unable to send request" chid (on_channels (new_voucher_result g chid result))

  -- The message to the other peer goes out on a goroutine of its own: before the event or after it.
  unfoldable pub close_data_transfer_channel : Bool → ChannelId → Step g (Option Err)
  close_data_transfer_channel message_first chid =
      fetch chid (λ e. done (some e))
        λ chst.
          let send : Step g (Option Err) =
            send_or_disconnect (other_peer chst) (cancel_message g p.peer_id chid)
              "unable to send cancel message" chid (done none) in
          let fire : Step g (Option Err) =
            attempt (on_channels (cancel g chid))
              (λ e. done (some (wrapped "unable to send cancel to channel FSM" e))) (done none) in
          call p (close_transfer chid)
          >> elim message_first [ true ↦ send >> fire | false ↦ (do e ← fire; send; done e) ]

  unfoldable pub close_data_transfer_channel_with_error : ChannelId → Err → Step g (Option Err)
  close_data_transfer_channel_with_error chid cherr =
      fetch chid (λ e. done (some e))
        λ chst.
          call p (close_transfer chid)
          >> call p (send_message (other_peer chst) (cancel_message g p.peer_id chid))
          >> attempt (on_channels (error g chid (p.text cherr)))
              (λ e. done (some (wrapped "unable to send error to channel FSM" e))) (done none)

  unfoldable pub pause_data_transfer_channel : ChannelId → Step g (Option Err)
  pause_data_transfer_channel chid =
      if not p.pauseable
      then done (some unsupported)
      else (call p (pause_transfer chid)
          >> send_or_disconnect (other_party chid p.peer_id) (pause_message g p.peer_id chid)
              "unable to send pause message" chid (on_channels (pause_own g p.peer_id chid)))

  unfoldable pub resume_data_transfer_channel : ChannelId → Step g (Option Err)
  resume_data_transfer_channel chid =
      if not p.pauseable
      then done (some unsupported)
      else (call p (resume_transfer (some (resume_message g p.peer_id chid)) chid)
          >> on_channels (resume_own g p.peer_id chid))

  abbrev pub transfer_channel_status : ChannelId → Step g Status
  transfer_channel_status chid =
      fetch chid (λ e. done channel_not_found_error) λ chst. done chst.status
