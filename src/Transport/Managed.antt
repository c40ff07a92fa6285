-- ===== src/Transport/Managed.antt =====
-- The manager as the handler of the events of the transport. What the manager asks of the transport
-- is recorded in its own calls, and not carried out.
pub mod Responses
use go_data_transfer.Base.{
  ◌≡◌, refl, ap, sym, subst, ◌∙◌, ◌==◌, Bool, true, false, List, [], ◌∷◌, Option, none, some,
  String, if◌then◌else◌,
}
use go_data_transfer.Types.{Peer, ChannelId, channel_id_eq, channel_id_eq_iff}
use go_data_transfer.Errors.{Err, ok, pause}
use go_data_transfer.Channels.Internal.{ChannelState}
use go_data_transfer.Channels.State.{self_paused}
use go_data_transfer.Channels.Group.{Group}
use go_data_transfer.Messages.Response.{TransferResponse}
use go_data_transfer.Messages.Build.{update_response}
use go_data_transfer.Messages.Wire.{Message, a_response, Codec, to_ipld, from_ipld}
use go_data_transfer.Manager.{
  on_channel_opened, on_response_received, on_data_sent, on_data_queued, on_transfer_initiated,
  on_request_cancelled, on_send_data_error, on_receive_data_error,
}
use go_data_transfer.Manager.Control.{controlled, pausable, on_response_received-control}
use go_data_transfer.Manager.Reports.{on_data_received, on_channel_completed}
use go_data_transfer.Manager.Requests.{on_request_received}
use go_data_transfer.Manager.World.{Setup, Manager, Step, on_channels}
use go_data_transfer.Transport.Extension.{
  get_transfer_data, decoders, is_known, extension_incoming_request_1_1,
  extension_outgoing_block_1_1,
}
use go_data_transfer.Transport.World.{
  RequestId, terminate_with_error, Transport, Graphsync, Act, EventsHandler, ◌>>=◌, ◌>>◌, done,
}
use go_data_transfer.Transport.Tracking.{load}
use go_data_transfer.Transport.Hooks.{GsMessage, on_mapped, channel_of, incoming_req_extensions}
use go_data_transfer.Transport.Messaging.{
  hand_over, terminate_if, process_extension, gs_incoming_response_hook,
}
use go_data_transfer.Transport.Rules.{Returns, bind_returns}

module _ {W : Type 0} {g : Group} where
  -- A computation of the manager, on its part of the state.
  abbrev pub by_manager : {A B : Type 0} → (A → B) → Step g A → Act (Transport W (Manager g)) B
  by_manager f m t = elim (m t.handler) [
    | none ↦ none
    | some (s, a) ↦ some (record t { handler = s }, f a)
  ]

abbrev pub same : {A : Type 0} → A → A
same a = a

abbrev pub as_message : Option TransferResponse → Option Message
as_message none = none
as_message (some r) = some (a_response r)

abbrev pub managed : {W : Type 0} (g : Group) → Setup → EventsHandler (Transport W (Manager g))
managed g p = record {
  on_channel_opened = λ chid. by_manager same (on_channels (on_channel_opened g p.peer_id chid));
  on_response_received =
      λ chid r. by_manager same (on_channels (on_response_received g p.peer_id chid r));
  on_data_received = λ chid link size index unique.
      by_manager same (on_data_received g p chid link size index unique);
  on_data_sent = λ chid link size index unique.
      by_manager same (on_channels (on_data_sent g p.peer_id chid link size index unique));
  on_data_queued = λ chid link size index unique. by_manager same λ s.
      let r = on_data_queued g p.peer_id chid link size index unique s.channels in
      some (record s { channels = r.0 }, (r.1, r.2));
  on_transfer_initiated = λ chid.
      by_manager same
        λ s. some (record s { channels = on_transfer_initiated g p.peer_id chid s.channels }, tt);
  on_request_received =
      λ chid r. by_manager (λ (answer, e). (as_message answer, e)) (on_request_received g p chid r);
  on_channel_completed = λ chid failure. by_manager same (on_channel_completed g p chid failure);
  on_request_cancelled =
      λ chid e. by_manager same (on_channels (on_request_cancelled g p.peer_id chid (p.text e)));
  on_send_data_error =
      λ chid e. by_manager same (on_channels (on_send_data_error g p.peer_id chid (p.text e)));
  on_receive_data_error =
      λ chid e. by_manager same (on_channels (on_receive_data_error g p.peer_id chid (p.text e)));
}
