-- ===== src/Transport/Channel.antt =====
-- transport/graphsync/graphsync.go: the methods of `dtChannel`, each of which runs under the lock of
-- the channel.
use go_data_transfer.Base.{true, false, List, [], ◌++◌, Option, none, some, String, if◌then◌else◌}
use go_data_transfer.Types.{Peer, Cid, Node, ChannelId}
use go_data_transfer.Errors.{Err, Result, ok, err, other, wrapped}
use go_data_transfer.Messages.Wire.{Message, Codec}
use go_data_transfer.Transport.Extension.{ExtensionData, to_extension_data}
use go_data_transfer.Transport.World.{
  RequestId, GsError, request_not_found, gs_request, gs_cancel, gs_pause, gs_unpause,
  register_persistence_option, unregister_persistence_option, use_persistence_option,
  send_extension_data, DtChannel, Transport, Graphsync, Context, for_completion, for_cancel,
  for_opened, Act, ◌>>=◌, ◌>>◌, done, stuck, go_on, reading, change, tell, call, tell_all,
}
use go_data_transfer.Transport.Tracking.{held, put_channel, set_request, delete_refs}

-- An error of graphsync as the caller sees it.
abbrev pub seen : {W : Type 0} → Graphsync W → Option GsError → Option Err
seen p none = none
seen p (some e) = some (p.failure e)

-- What `cancel` sends on its channel.
abbrev pub cancel_error : {W : Type 0} → Graphsync W → Option GsError → Option Err
cancel_error p none = none
cancel_error p (some request_not_found) = none
cancel_error p (some e) = some (wrapped "cancelling graphsync request for channel" (p.failure e))

-- The two waits of `open` for a cancelled request.
abbrev pub await_cancelled : Context → Option Err → Option Err
await_cancelled ctx e = elim (ctx for_completion) [
  | some over ↦ some (wrapped "waiting for cancelled graphsync request to complete" over)
  | none ↦ elim (ctx for_cancel) [
    | some over ↦ some (
        wrapped "restarting graphsync request"
          (other "timed out waiting for graphsync request to be cancelled"))
    | none ↦ elim e [ some x ↦ some (wrapped "restarting graphsync request" x) | none ↦ none ]
  ]
]

-- What ends `close` and `shutdown`: the cancel, or the context.
abbrev pub await_cancel : Context → Option Err → Option Err
await_cancel ctx e = elim (ctx for_cancel) [ some over ↦ some over | none ↦ e ]

module _ {W E : Type 0} where
  unfoldable pub cancel_gs_request : Graphsync W → ChannelId → Act (Transport W E) (Option Err)
  cancel_gs_request p chid = reading λ t.
      let c = held t chid in
      if c.requester_cancelled then done none else elim c.request_id [
        | none ↦ done none
        | some r ↦
            change (put_channel chid (record c { request_id = none }))
            >> (call p (gs_cancel r) >>= λ e. done (cancel_error p e))
      ]

  -- `open`, in three parts. An existing request is cancelled. an existing request is cancelled.
  unfoldable pub cancel_existing :
      Graphsync W → Context → ChannelId → Act (Transport W E) (Option Err)
  cancel_existing p ctx chid = reading λ t. elim (held t chid).request_id [
    | none ↦ done none
    | some r ↦ cancel_gs_request p chid >>= λ e. done (await_cancelled ctx e)
  ]

  -- The wait for the ID of the request. If it is not there and the context does not end, the wait
  -- does not end.
  unfoldable pub await_opened : Context → ChannelId → Act (Transport W E) (Option Err)
  await_opened ctx chid = reading λ t.
      let c = held t chid in
      elim (ctx for_opened) [
        | some over ↦ done (some over)
        | none ↦ elim c.opened [
          | none ↦ stuck
          | some r ↦
              change
                (put_channel chid (record c { is_open = true; request_id = some r; opened = none }))
              >> done none
        ]
      ]

  -- What `open` does before that wait.
  unfoldable pub begin_request :
      Graphsync W
      → Context
      → ChannelId
      → Peer
      → Cid
      → Node
      → List (ExtensionData W)
      → Act (Transport W E) (Option Err)
  begin_request p ctx chid data_sender root stor exts = cancel_existing p ctx chid >>= λ e.
      go_on e (tell (gs_request data_sender root stor exts) >> done none)

  -- `meanwhile` is what the other goroutines do while it waits, of which the hook for the outgoing
  -- request is one.
  unfoldable pub open_request :
      Graphsync W
      → Context
      → Act (Transport W E) (Unit {0})
      → ChannelId
      → Peer
      → Cid
      → Node
      → List (ExtensionData W)
      → Act (Transport W E) (Option Err)
  open_request p ctx meanwhile chid data_sender root stor exts =
      begin_request p ctx chid data_sender root stor exts >>= λ e.
      go_on e (meanwhile >> await_opened ctx chid)

  abbrev pub use_store_of : ChannelId → DtChannel W → Act (Transport W E) (Unit {0})
  use_store_of chid c = if c.store_registered then tell (use_persistence_option chid) else done tt

  -- A send on a full buffer waits.
  unfoldable pub gs_req_opened : ChannelId → RequestId → Act (Transport W E) (Unit {0})
  gs_req_opened chid r = reading λ t.
      let c = held t chid in
      use_store_of chid c >> change (set_request r false chid) >> elim c.opened [
        | some earlier ↦ stuck
        | none ↦ change (put_channel chid (record c { opened = some r }))
      ]

  -- The message that was queued since the requester cancelled.
  unfoldable pub send_pending : ChannelId → Act (Transport W E) (Unit {0})
  send_pending chid = reading λ t.
      let c = held t chid in
      if c.requester_cancelled
      then (change
            (put_channel chid (record c { requester_cancelled = false; pending_extensions = [] }))
          >> tell_all send_extension_data c.pending_extensions)
      else done tt

  -- The rest of `gsDataRequestRcvd`, behind the message.
  unfoldable pub take_request : ChannelId → RequestId → Act (Transport W E) (Unit {0})
  take_request chid r = reading λ t.
      let c = held t chid in
      use_store_of chid c
      >> change (put_channel chid (record c { request_id = some r; is_open = true }))
      >> change (set_request r true chid)

  unfoldable pub gs_data_request_rcvd : ChannelId → RequestId → Act (Transport W E) (Unit {0})
  gs_data_request_rcvd chid r = send_pending chid >> take_request chid r

  unfoldable pub pause : Graphsync W → ChannelId → Act (Transport W E) (Option Err)
  pause p chid = reading λ t.
      let c = held t chid in
      elim c.request_id [
        | none ↦ done none
        | some r ↦
            if c.requester_cancelled
            then done none
            else call p (gs_pause r) >>= λ e. done (seen p e)
      ]

  -- Without a request nothing will ever come on the channel, which is nil.
  unfoldable pub close : Graphsync W → Context → ChannelId → Act (Transport W E) (Option Err)
  close p ctx chid = reading λ t. elim (held t chid).request_id [
    | none ↦ elim (ctx for_cancel) [ none ↦ stuck | some over ↦ done (some over) ]
    | some r ↦ cancel_gs_request p chid >>= λ e. done (await_cancel ctx e)
  ]

  abbrev pub on_requester_cancelled : ChannelId → Act (Transport W E) (Unit {0})
  on_requester_cancelled chid =
      change λ t. put_channel chid (record (held t chid) { requester_cancelled = true }) t

  unfoldable pub use_store : Graphsync W → ChannelId → Act (Transport W E) (Option Err)
  use_store p chid = call p (register_persistence_option chid) >>= λ e. elim e [
    | some x ↦ done (some (p.failure x))
    | none ↦
        (change λ t. put_channel chid (record (held t chid) { store_registered = true }) t)
        >> done none
  ]

  -- On a channel that is no longer tracked.
  unfoldable pub cleanup : Graphsync W → ChannelId → DtChannel W → Act (Transport W E) (Unit {0})
  cleanup p chid c =
      (if c.store_registered
        then (call p (unregister_persistence_option chid) >> done tt)
        else done tt)
      >> change (delete_refs chid)

  unfoldable pub shutdown_channel :
      Graphsync W → Context → ChannelId → Act (Transport W E) (Option Err)
  shutdown_channel p ctx chid = cancel_gs_request p chid >>= λ e. done (await_cancel ctx e)

-- The extensions for the message, if there is one.
abbrev pub extensions_of :
    (k : Codec) → Option Message → List String → Result (List (ExtensionData k.Wire))
extensions_of k none supported = ok []
extensions_of k (some m) supported = to_extension_data k m supported

module _ (k : Codec) {E : Type 0} where
  unfoldable pub resume :
      Graphsync k.Wire → ChannelId → Option Message → Act (Transport k.Wire E) (Option Err)
  resume p chid msg = reading λ t.
      let c = held t chid in
      elim c.request_id [
        | none ↦ done none
        | some r ↦ elim (extensions_of k msg t.supported_extensions) [
          | err e ↦ done (some e)
          | ok exts ↦
              if c.requester_cancelled
              then (change (
                    put_channel chid
                      (record c { pending_extensions = c.pending_extensions ++ exts }))
                  >> done none)
              else (change (put_channel chid (record c { xfer_started = true }))
                  >> (call p (gs_unpause r exts) >>= λ e. done (seen p e)))
        ]
      ]
