-- ===== src/Transport.antt =====
-- transport/graphsync/graphsync.go: the methods of `Transport`. The handler of the events is `h`.
pub mod Extension
pub mod World
pub mod Tracking
pub mod Channel
pub mod Rules
pub mod Linked
pub mod Cleaning
pub mod Pending
pub mod Opening
pub mod Hooks
pub mod Messaging
pub mod Managed
use go_data_transfer.Base.{
  ℕ, Bool, true, false, List, [], ◌∷◌, ◌++◌, Option, none, some, String, find, remove, last?,
  if◌then◌else◌,
}
use go_data_transfer.Types.{Peer, Cid, Node, ChannelId}
use go_data_transfer.Errors.{
  Err, Result, ok, err, other, wrapped, handler_not_set, handler_already_set,
}
use go_data_transfer.Channels.Internal.{ChannelState}
use go_data_transfer.Messages.Wire.{Message, Codec}
use go_data_transfer.Transport.Extension.{
  ExtensionData, extension_data_transfer_1_1, to_extension_data,
}
use go_data_transfer.Transport.World.{
  GsError, client_cancelled, responder_cancelled, Hook, incoming_request_processing,
  outgoing_request_processing, incoming_request, completed_response, incoming_block, outgoing_block,
  block_sent, outgoing_request, incoming_response, request_updated, requestor_cancelled,
  network_error, receiver_network_error, register_hook, unregister_hook, Transport, DtChannel,
  Graphsync, Context, Act, EventsHandler, by_channel, ◌>>=◌, ◌>>◌, done, reading, change, tell,
}
use go_data_transfer.Transport.Tracking.{track_dt_channel, get_dt_channel}
use go_data_transfer.Transport.Channel.{
  open_request, pause, resume, close, cleanup, use_store, shutdown_channel,
}

abbrev pub get_restart_extension :
    {W : Type 0} → Graphsync W → Option ChannelState → List (ExtensionData W)
get_restart_extension p none = []
get_restart_extension p (some channel) =
    p.do_not_send_first_blocks channel.received_blocks_total ∷ []

abbrev pub closing_error : Option Err → Option Err
closing_error none = none
closing_error (some e) = some (wrapped "closing channel" e)

-- The hooks in the order in which they are registered.
abbrev pub all_hooks : List Hook
all_hooks =
    incoming_request_processing ∷ outgoing_request_processing ∷ incoming_request
    ∷ completed_response ∷ incoming_block ∷ outgoing_block ∷ block_sent ∷ outgoing_request
    ∷ incoming_response ∷ request_updated ∷ requestor_cancelled ∷ network_error
    ∷ receiver_network_error ∷ []

abbrev or_first : Option Err → Option Err → Option Err
or_first none e = e
or_first (some x) e = some x

abbrev shutdown_error : Option Err → Option Err
shutdown_error none = none
shutdown_error (some e) = some (wrapped "shutting down graphsync transport" e)

-- What graphsync sent on the channel of errors, until it closed it.
unfoldable pub consume_responses : List GsError → Option GsError
consume_responses errors = last? errors

module _ {W E : Type 0} where
  -- `options` are the extensions of `SupportedExtensions`, if it is given.
  unfoldable pub new_transport : Option (List String) → E → Transport W E
  new_transport options handler = record {
    events_set = false;
    supported_extensions = elim options [
      | none ↦ extension_data_transfer_1_1 ∷ []
      | some supported ↦ supported
    ];
    unregister_funcs = [];
    dt_channels = [];
    request_id_to_channel_id = [];
    gs_calls = [];
    handler = handler;
  }

  -- `getDTChannel`, and what to do if it is there.
  abbrev pub on_tracked :
      ChannelId → Act (Transport W E) (Option Err) → Act (Transport W E) (Option Err)
  on_tracked chid m = reading λ t. elim (get_dt_channel chid t) [ err e ↦ done (some e) | ok c ↦ m ]

  unfoldable pub pause_channel : Graphsync W → ChannelId → Act (Transport W E) (Option Err)
  pause_channel p chid = on_tracked chid (pause p chid)

  unfoldable pub close_channel :
      Graphsync W → Context → ChannelId → Act (Transport W E) (Option Err)
  close_channel p ctx chid = on_tracked chid (close p ctx chid >>= λ e. done (closing_error e))

  abbrev pub untrack : ChannelId → Transport W E → Transport W E
  untrack chid t = record t { dt_channels = remove by_channel chid t.dt_channels }

  unfoldable pub cleanup_channel : Graphsync W → ChannelId → Act (Transport W E) (Unit {0})
  cleanup_channel p chid = reading λ t. elim (find by_channel t.dt_channels chid) [
    | none ↦ done tt
    | some c ↦ change (untrack chid) >> cleanup p chid c
  ]

  abbrev pub register_all_hooks : List Hook → Act (Transport W E) (Unit {0})
  register_all_hooks [] = done tt
  register_all_hooks (x ∷ xs) =
      let rest = register_all_hooks xs in
      tell (register_hook x)
      >> (change λ t. record t { unregister_funcs = t.unregister_funcs ++ x ∷ [] })
      >> rest

  unfoldable pub set_event_handler : Act (Transport W E) (Option Err)
  set_event_handler = reading λ t.
      if t.events_set
      then done (some handler_already_set)
      else ((change λ t. record t { events_set = true })
          >> register_all_hooks all_hooks
          >> done none)

  abbrev pub unregister : List Hook → Act (Transport W E) (Unit {0})
  unregister [] = done tt
  unregister (x ∷ xs) = let rest = unregister xs in tell (unregister_hook x) >> rest

  -- The goroutines of `Shutdown`, in the order of the map; the first error is the error of them all.
  unfoldable pub shutdown_channels :
      Graphsync W → Context → List (ChannelId × DtChannel W) → Act (Transport W E) (Option Err)
  shutdown_channels p ctx [] = done none
  shutdown_channels p ctx ((chid, c) ∷ m) =
      let rest = shutdown_channels p ctx m in
      shutdown_channel p ctx chid >>= λ e. rest >>= λ e2. done (or_first e e2)

  unfoldable pub shutdown_transport : Graphsync W → Context → Act (Transport W E) (Option Err)
  shutdown_transport p ctx = reading λ t.
      unregister t.unregister_funcs
      >> (shutdown_channels p ctx t.dt_channels >>= λ e. done (shutdown_error e))

  unfoldable pub use_store_for : Graphsync W → ChannelId → Act (Transport W E) (Option Err)
  use_store_for p chid = change (track_dt_channel chid) >> use_store p chid

  module _ (p : Graphsync W) (h : EventsHandler (Transport W E)) (chid : ChannelId) where
    abbrev pub complete_gs_request : Option GsError → Act (Transport W E) (Option Err)
    complete_gs_request (some client_cancelled) =
        h.on_request_cancelled chid (other "graphsync request cancelled")
    complete_gs_request (some responder_cancelled) = done none
    complete_gs_request none = h.on_channel_completed chid none
    complete_gs_request (some e) =
        h.on_channel_completed chid
          (some (wrapped "graphsync request failed to complete" (p.failure e)))

    -- The goroutine of an opened request. The error of the handler is only logged.
    unfoldable pub execute_gs_request : List GsError → Act (Transport W E) (Unit {0})
    execute_gs_request errors = complete_gs_request (consume_responses errors) >> done tt

module _ (k : Codec) {E : Type 0} (p : Graphsync k.Wire) where
  unfoldable pub resume_channel : Option Message → ChannelId → Act (Transport k.Wire E) (Option Err)
  resume_channel msg chid = on_tracked chid (resume k p chid msg)

  -- If it has no error, the goroutine of the request is started.
  unfoldable pub open_channel :
      Context
      → Act (Transport k.Wire E) (Unit {0})
      → Peer
      → ChannelId
      → Cid
      → Node
      → Option ChannelState
      → Message
      → Act (Transport k.Wire E) (Option Err)
  open_channel ctx meanwhile data_sender chid root stor channel msg = reading λ t.
      if t.events_set
      then (elim (to_extension_data k msg t.supported_extensions) [
        | err e ↦ done (some e)
        | ok exts ↦
            change (track_dt_channel chid)
            >> open_request p ctx meanwhile chid data_sender root stor
                (exts ++ get_restart_extension p channel)
      ])
      else done (some handler_not_set)
