-- ===== src/Transport/Tracking.antt =====
-- transport/graphsync/graphsync.go: the channels that the transport tracks, and the map from graphsync
-- requests to channels. A pointer to a tracked channel is known here by the ID of the channel.
pub mod Lookup
use go_data_transfer.Base.{
  ℕ, Bool, true, false, ◌||◌, List, [], ◌∷◌, ◌++◌, Option, none, some, ◌==◌, if◌then◌else◌, find,
  insert, remove,
}
use go_data_transfer.Types.{Peer, ChannelId, channel_id_eq}
use go_data_transfer.Errors.{Err, Result, ok, err, handler_not_set, channel_not_found, wrapped}
use go_data_transfer.Transport.World.{
  RequestId, ChannelInfo, DtChannel, Transport, by_channel, by_request,
}

abbrev pub new_dt_channel : {W : Type 0} → ChannelId → DtChannel W
new_dt_channel chid = record {
  channel_id = chid;
  is_open = false;
  request_id = none;
  requester_cancelled = false;
  xfer_started = false;
  pending_extensions = [];
  opened = none;
  store_registered = false;
}

abbrev pub or_new : {W : Type 0} → ChannelId → Option (DtChannel W) → DtChannel W
or_new chid none = new_dt_channel chid
or_new chid (some c) = c

abbrev pub channel_of_info : Option ChannelInfo → Option ChannelId
channel_of_info none = none
channel_of_info (some i) = some i.channel_id

abbrev pub load_in : List (RequestId × ChannelInfo) → RequestId → Option ChannelId
load_in m key = channel_of_info (find by_request m key)

module _ {W E : Type 0} where
  -- What the pointer to the channel points to.
  abbrev pub held : Transport W E → ChannelId → DtChannel W
  held t chid = or_new chid (find by_channel t.dt_channels chid)

  abbrev pub put_channel : ChannelId → DtChannel W → Transport W E → Transport W E
  put_channel chid c t = record t { dt_channels = insert by_channel chid c t.dt_channels }

  unfoldable pub track_dt_channel : ChannelId → Transport W E → Transport W E
  track_dt_channel chid t = elim (find by_channel t.dt_channels chid) [
    | none ↦ put_channel chid (new_dt_channel chid) t
    | some c ↦ t
  ]

  unfoldable pub get_dt_channel : ChannelId → Transport W E → Result (DtChannel W)
  get_dt_channel chid t =
      if t.events_set
      then (elim (find by_channel t.dt_channels chid) [
        | none ↦ err (wrapped "channel" channel_not_found)
        | some c ↦ ok c
      ])
      else err handler_not_set

  -- `load` of the map of requests.
  abbrev pub load : Transport W E → RequestId → Option ChannelId
  load t key = load_in t.request_id_to_channel_id key

  unfoldable pub any : Transport W E → List RequestId → Option ChannelId
  any t [] = none
  any t (r ∷ rs) = let rest = any t rs in elim (load t r) [ none ↦ rest | some chid ↦ some chid ]

  abbrev pub set_request : RequestId → Bool → ChannelId → Transport W E → Transport W E
  set_request key sending chid t = record t {
    request_id_to_channel_id =
        insert by_request key (record { sending = sending; channel_id = chid })
          t.request_id_to_channel_id;
  }

unfoldable pub without : ChannelId → List (RequestId × ChannelInfo) → List (RequestId × ChannelInfo)
without chid [] = []
without chid ((r, i) ∷ m) =
    let rest = without chid m in
    if channel_id_eq i.channel_id chid then remove by_request r rest else (r, i) ∷ rest

abbrev pub delete_refs : {W E : Type 0} → ChannelId → Transport W E → Transport W E
delete_refs chid t = record t { request_id_to_channel_id = without chid t.request_id_to_channel_id }

pub record ChannelGraphsyncRequests : Type 0 where
  pub current : Option RequestId
  pub previous : List RequestId

pub record ChannelsForPeer : Type 0 where
  pub sending_channels : List (ChannelId × ChannelGraphsyncRequests)
  pub receiving_channels : List (ChannelId × ChannelGraphsyncRequests)

abbrev no_requests : ChannelGraphsyncRequests
no_requests = record { current = none; previous = [] }

abbrev or_none : Option ChannelGraphsyncRequests → ChannelGraphsyncRequests
or_none none = no_requests
or_none (some c) = c

abbrev pub is_request_of : Option RequestId → RequestId → Bool
is_request_of none r = false
is_request_of (some c) r = c == r

-- The request is the current one of its channel, or one from before a restart.
abbrev pub add_request : Bool → RequestId → ChannelGraphsyncRequests → ChannelGraphsyncRequests
add_request true r c = record c { current = some r }
add_request false r c = record c { previous = c.previous ++ r ∷ [] }

abbrev pub add_to :
    Bool
    → RequestId
    → ChannelId
    → List (ChannelId × ChannelGraphsyncRequests)
    → List (ChannelId × ChannelGraphsyncRequests)
add_to is_current r chid m =
    insert by_channel chid (add_request is_current r (or_none (find by_channel m chid))) m

module _ {W E : Type 0} where
  -- The function that `ChannelsForPeer` calls for each request.
  abbrev pub collect :
      Transport W E → Peer → RequestId → ChannelInfo → ChannelsForPeer → ChannelsForPeer
  collect t p r i all =
      let is_current = is_request_of (held t i.channel_id).request_id r in
      if i.channel_id.initiator == p || i.channel_id.responder == p
      then (if i.sending
          then record all {
            sending_channels = add_to is_current r i.channel_id all.sending_channels;
          }
          else record all {
            receiving_channels = add_to is_current r i.channel_id all.receiving_channels;
          })
      else all

  abbrev pub collect_all :
      Transport W E → Peer → List (RequestId × ChannelInfo) → ChannelsForPeer → ChannelsForPeer
  collect_all t p [] all = all
  collect_all t p ((r, i) ∷ m) all = collect_all t p m (collect t p r i all)

  -- `self` is `t.peerID`.
  unfoldable pub channels_for_peer : Peer → Transport W E → Peer → ChannelsForPeer
  channels_for_peer self t p =
      let empty : ChannelsForPeer = record { sending_channels = []; receiving_channels = [] } in
      if p == self then empty else collect_all t p t.request_id_to_channel_id empty
