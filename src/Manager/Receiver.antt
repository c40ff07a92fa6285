-- ===== src/Manager/Receiver.antt =====
-- impl/receiver.go: the messages that come in over the network.
use go_data_transfer.Base.{
  Bool, true, false, not, ◌&&◌, ◌||◌, List, [], ◌∷◌, Option, none, some, ◌==◌, if◌then◌else◌,
}
use go_data_transfer.Statuses.{Status, contains, requested, ongoing, initiator_paused}
use go_data_transfer.Types.{Peer, ChannelId}
use go_data_transfer.Errors.{Err, ok, err, resume, is_pause}
use go_data_transfer.Channels.Internal.{ChannelState}
use go_data_transfer.Channels.Fsm.Finality.{is_channel_terminated}
use go_data_transfer.Channels.State.{channel_id, other_peer}
use go_data_transfer.Channels.Group.{Group}
use go_data_transfer.Messages.Request
use go_data_transfer.Messages.Request.{TransferRequest}
use go_data_transfer.Messages.Response
use go_data_transfer.Messages.Response.{TransferResponse}
use go_data_transfer.Messages.Wire.{Message, a_response}
use go_data_transfer.Manager.{on_response_received}
use go_data_transfer.Manager.World.{
  Setup, Step, send_message, open_transfer, close_transfer, pause_transfer, resume_transfer, ◌>>=◌,
  ◌>>◌, done, attempt, on_channels, call, fetch, asserting_pauseable,
}
use go_data_transfer.Manager.Restart.{
  channel_data_transfer_type, manager_peer_create_push, manager_peer_create_pull,
  open_push_restart_channel, open_pull_restart_channel,
}
use go_data_transfer.Manager.Requests.{on_request_received}

abbrev pub resume_transport_states_responder : List Status
resume_transport_states_responder = requested ∷ ongoing ∷ initiator_paused ∷ []

abbrev pub is_resume : Option Err → Bool
is_resume (some resume) = true
is_resume _ = false

module _ (g : Group) (p : Setup) where
  abbrev answer_message : Option TransferResponse → Option Message
  answer_message none = none
  answer_message (some r) = some (a_response r)

  -- The channel that a restarted push is opened with.
  abbrev opening_channel :
      Bool → ChannelId → (Option ChannelState → Step g (Option Err)) → Step g (Option Err)
  opening_channel false chid k = k none
  opening_channel true chid k = fetch chid (λ e. done (some e)) (λ chst. k (some chst))

  -- A push that is accepted is opened by this node, with the response; any other response is sent.
  abbrev pub deliver : ChannelId → TransferRequest → Option TransferResponse → Step g (Option Err)
  deliver chid incoming none = done none
  deliver chid incoming (some response) =
      if (Response.is_new response || Response.is_restart response)
        && response.request_accepted
        && not incoming.pull
      then opening_channel (Response.is_restart response) chid (λ channel. call p (
          open_transfer chid.initiator chid (Request.base_cid incoming) incoming.selector_ptr
            channel (a_response response)))
      else call p (send_message chid.initiator (a_response response))

  -- The end of `receiveRequest`, behind the response.
  abbrev pub settle_request : ChannelId → Option Err → Step g (Option Err)
  settle_request chid none = done none
  settle_request chid (some e) =
      if is_pause (some e)
      then asserting_pauseable p (call p (pause_transfer chid))
      else (call p (close_transfer chid) >> done (some e))

  unfoldable pub receive_request : Peer → TransferRequest → Step g (Option Err)
  receive_request initiator incoming =
      let chid : ChannelId = record {
        initiator = initiator;
        responder = p.peer_id;
        id = incoming.transfer_id;
      } in
      (do
        (response, receive_err) ← on_request_received g p chid incoming
        if is_resume receive_err
            then fetch chid (λ e. done (some e))
                (λ chst.
                  if contains resume_transport_states_responder chst.status
                  then asserting_pauseable p
                      (call p (resume_transfer (answer_message response) chid))
                  else deliver chid incoming response)
            else attempt (deliver chid incoming response) (λ e. done (some e))
                (settle_request chid receive_err))

  unfoldable pub receive_response : Peer → TransferResponse → Step g (Option Err)
  receive_response sender incoming =
      let chid : ChannelId = record {
        initiator = p.peer_id;
        responder = sender;
        id = incoming.transfer_id;
      } in
      (do e ← on_channels (on_response_received g p.peer_id chid incoming); settle_request chid e)

  -- Errors are only logged.
  unfoldable pub receive_restart_existing_channel_request :
      Peer → TransferRequest → Step g (Option Err)
  receive_restart_existing_channel_request sender incoming =
      elim (Request.restart_channel_id incoming) [
        | err e ↦ done none
        | ok ch ↦
            fetch ch (λ e. done none)
              λ channel.
                if not ((channel_id channel).initiator == p.peer_id)
                then done none
                else if not (other_peer channel == sender)
                then done none
                else if is_channel_terminated channel.status
                then done none
                else elim (channel_data_transfer_type p.peer_id channel) [
                  | manager_peer_create_push ↦ open_push_restart_channel g p channel
                  | manager_peer_create_pull ↦ open_pull_restart_channel g p channel
                  | _ ↦ done none
                ]
      ]
