-- ===== src/Transport/Hooks.antt =====
-- transport/graphsync/graphsync.go: the hooks and listeners that the transport registers with
-- graphsync, which run once the handler `h` of the events is set.
use go_data_transfer.Base.{
  ℕ, ℤ, Bool, true, false, not, ◌||◌, List, [], ◌∷◌, Option, none, some, String, ◌==◌,
  if◌then◌else◌,
}
use go_data_transfer.Types.{Peer, Cid, ChannelId, TransferId}
use go_data_transfer.Errors.{Err, ok, err, is_pause}
use go_data_transfer.Messages.Wire.{Message, a_request, a_response}
use go_data_transfer.Transport.Extension.{
  extension_incoming_request_1_1, extension_outgoing_block_1_1, extension_data_transfer_1_1,
}
use go_data_transfer.Transport.World.{
  RequestId, GsCall, ChannelInfo, terminate_with_error, pause_request, Transport, Graphsync, Act,
  EventsHandler, ◌>>=◌, ◌>>◌, done, reading, tell,
}
use go_data_transfer.Transport.Tracking.{get_dt_channel, load}
use go_data_transfer.Transport.Channel.{on_requester_cancelled}

abbrev pub incoming_req_extensions : List String
incoming_req_extensions = extension_incoming_request_1_1 ∷ extension_data_transfer_1_1 ∷ []

abbrev pub outgoing_blk_extensions : List String
outgoing_blk_extensions = extension_outgoing_block_1_1 ∷ extension_data_transfer_1_1 ∷ []

-- A request, an update or a response of graphsync: the ID of the request, and `Extension`.
pub record GsMessage (W : Type 0) : Type 0 where
  pub id : RequestId
  pub extension : String → Option W

pub record Block : Type 0 where
  pub link : Cid
  pub size : ℕ
  pub index : ℤ
  pub size_on_wire : ℕ

abbrev pub on_wire : Block → Bool
on_wire b = not (b.size_on_wire == 0)

abbrev pub is_request : Message → Bool
is_request (a_request r) = true
is_request (a_response r) = false

abbrev pub message_id : Message → TransferId
message_id (a_request r) = r.transfer_id
message_id (a_response r) = r.transfer_id

-- The channel of a message that comes in: a request comes from its initiator.
abbrev pub channel_of : Peer → Peer → Message → ChannelId
channel_of self p msg =
    if is_request msg
    then record { initiator = p; responder = self; id = message_id msg }
    else record { initiator = self; responder = p; id = message_id msg }

-- The channel of a request that goes out to `p`.
abbrev pub channel_to : Peer → Peer → Message → ChannelId
channel_to self p msg =
    if is_request msg
    then record { initiator = self; responder = p; id = message_id msg }
    else record { initiator = p; responder = self; id = message_id msg }

module _ {W E : Type 0} where
  -- The request of a hook belongs to a channel, or there is nothing to do.
  abbrev pub on_mapped :
      RequestId → (ChannelId → Act (Transport W E) (Unit {0})) → Act (Transport W E) (Unit {0})
  on_mapped r f = reading λ t. elim (load t r) [ none ↦ done tt | some chid ↦ f chid ]

  -- An error other than a pause ends the request.
  abbrev pub terminate_unless_pause : Option Err → Act (Transport W E) (Unit {0})
  terminate_unless_pause none = done tt
  terminate_unless_pause (some e) =
      if is_pause (some e) then done tt else tell (terminate_with_error (some e))

  module _ (p : Graphsync W) (h : EventsHandler (Transport W E)) where
    abbrev pub after_block : GsCall W → Option Err → Act (Transport W E) (Unit {0})
    after_block paused none = done tt
    after_block paused (some e) =
        if is_pause (some e) then tell paused else tell (terminate_with_error (some e))

    unfoldable pub gs_incoming_block_hook : RequestId → Block → Act (Transport W E) (Unit {0})
    gs_incoming_block_hook r b = on_mapped r λ chid.
        h.on_data_received chid b.link b.size b.index (on_wire b) >>= after_block pause_request

    -- The error of the handler is only logged, here and in the listeners below.
    unfoldable pub gs_block_sent_hook : RequestId → Block → Act (Transport W E) (Unit {0})
    gs_block_sent_hook r b =
        if b.size_on_wire == 0
        then done tt
        else (on_mapped r λ chid. h.on_data_sent chid b.link b.size b.index (on_wire b) >> done tt)

    unfoldable pub gs_request_processing_listener : RequestId → Act (Transport W E) (Unit {0})
    gs_request_processing_listener r = on_mapped r λ chid. h.on_transfer_initiated chid

    unfoldable pub gs_requestor_cancelled_listener : RequestId → Act (Transport W E) (Unit {0})
    gs_requestor_cancelled_listener r = on_mapped r λ chid.
        reading
          λ t. elim (get_dt_channel chid t) [ err e ↦ done tt | ok c ↦ on_requester_cancelled chid ]

    unfoldable pub gs_network_send_error_listener : RequestId → Err → Act (Transport W E) (Unit {0})
    gs_network_send_error_listener r e = on_mapped r λ chid. h.on_send_data_error chid e >> done tt

    abbrev pub report_all :
        Peer → Err → List (RequestId × ChannelInfo) → Act (Transport W E) (Unit {0})
    report_all other_peer e [] = done tt
    report_all other_peer e ((r, i) ∷ m) =
        let rest = report_all other_peer e m in
        if i.channel_id.initiator == other_peer || i.channel_id.responder == other_peer
        then (h.on_receive_data_error i.channel_id e >> rest)
        else rest

    unfoldable pub gs_network_receive_error_listener : Peer → Err → Act (Transport W E) (Unit {0})
    gs_network_receive_error_listener other_peer e =
        reading λ t. report_all other_peer e t.request_id_to_channel_id
