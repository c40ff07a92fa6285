-- ===== src/Transport/Linked/Methods.antt =====
-- Any sequence of what the transport does keeps its two maps in agreement.
use go_data_transfer.Base.{inl, inr, Bool, List, [], ◌∷◌, Option, Option-cases, Bool-cases, find}
use go_data_transfer.Types.{Peer, Cid, Node, ChannelId}
use go_data_transfer.Errors.{Err, Result-cases}
use go_data_transfer.Messages.Wire.{Message, Codec}
use go_data_transfer.Transport.Extension.{ExtensionData}
use go_data_transfer.Transport.World.{
  RequestId, DtChannel, Transport, Graphsync, Context, by_channel, Act, EventsHandler, ◌>>◌, tell,
  Hook, augment_context, validate_request, register_persistence_option,
}
use go_data_transfer.Transport.Tracking.{held, get_dt_channel}
use go_data_transfer.Transport.Channel.{
  cancel_gs_request, cancel_existing, begin_request, gs_data_request_rcvd, pause, resume,
  extensions_of, use_store, cleanup, shutdown_channel,
}
use go_data_transfer.Transport.{
  cleanup_channel, on_tracked, set_event_handler, shutdown_transport, shutdown_channels, unregister,
}
use go_data_transfer.Transport.Messaging.{starts_paused, admit_request}
use go_data_transfer.Transport.Rules.{Holds, Holds-bind, Holds-go_on}
use go_data_transfer.Transport.Linked.{
  Linked, Tracks, Free, put_channel-Tracks, put_channel-Linked, untrack-Linked,
}
use go_data_transfer.Transport.Linked.Operations.{
  cancel_gs_request-Linked, cancel_existing-Linked, gs_data_request_rcvd-Linked,
}

module _ {W E : Type 0} (p : Graphsync W) where
  pub on_tracked-Linked :
      (chid : ChannelId) (m : Act (Transport W E) (Option Err)) (t : Transport W E)
      → Linked t
      → Holds Linked (m t)
      → Holds Linked (on_tracked chid m t)
  on_tracked-Linked chid m t v h = elim (Result-cases (get_dt_channel chid t)) [
    | inl (e, missing) ↦ rw (Holds, on_tracked, missing) v
    | inr (c, there) ↦ rw (Holds, on_tracked, there) h
  ]

  pub pause-Linked :
      (chid : ChannelId) (t : Transport W E) → Linked t → Holds Linked (pause p chid t)
  unfolding pause
  pause-Linked chid t v = elim (Option-cases (held t chid).request_id) [
    | inl without ↦ rw (Holds, pause, without) v
    | inr (r, has) ↦ elim (Bool-cases (held t chid).requester_cancelled) [
      | inl gone ↦ rw (Holds, pause, has, gone) v
      | inr here ↦ rw (Holds, pause, has, here) v
    ]
  ]

  pub use_store-Linked :
      (chid : ChannelId) (t : Transport W E) → Linked t → Holds Linked (use_store p chid t)
  unfolding use_store
  use_store-Linked chid t v =
      elim (Option-cases (p.answer t.gs_calls (register_persistence_option chid))) [
        | inr (e, failed) ↦ rw (Holds, use_store, failed) v
        | inl fine ↦
            rw (Holds, use_store, fine)
              (put_channel-Linked t chid _ v (λ q h. v.current chid q h)
                λ q h. v.announced chid q h)
      ]

  pub cleanup_channel-Linked :
      (chid : ChannelId) (t : Transport W E) → Linked t → Holds Linked (cleanup_channel p chid t)
  unfolding cleanup_channel cleanup
  cleanup_channel-Linked chid t v = elim (Option-cases (find by_channel t.dt_channels chid)) [
    | inl missing ↦ rw (Holds, cleanup_channel, missing) v
    | inr (c, there) ↦ elim (Bool-cases c.store_registered) [
      | inl with ↦ rw (Holds, cleanup_channel, there, cleanup, with) (untrack-Linked t chid v)
      | inr without ↦ rw (Holds, cleanup_channel, there, cleanup, without) (untrack-Linked t chid v)
    ]
  ]

  shutdown_channels-Linked :
      (ctx : Context) (m : List (ChannelId × DtChannel W)) (t : Transport W E)
      → Linked t
      → Holds Linked (shutdown_channels p ctx m t)
  unfolding shutdown_channels shutdown_channel
  shutdown_channels-Linked ctx [] t v = v
  shutdown_channels-Linked ctx ((chid, c) ∷ m) t v =
      Holds-bind Linked Linked (shutdown_channel p ctx chid) _ t
        (Holds-bind Linked Linked (cancel_gs_request p chid) _ t
          (cancel_gs_request-Linked p chid t v) λ s e w. w)
        λ s e w.
          Holds-bind Linked Linked (shutdown_channels p ctx m) _ s
            (shutdown_channels-Linked ctx m s w) λ s2 e2 w2. w2

  -- What records calls and hooks only.
  unregister-Linked :
      (hooks : List Hook) (t : Transport W E) → Linked t → Holds Linked (unregister hooks t)
  unregister-Linked [] t v = v
  unregister-Linked (x ∷ xs) t v = unregister-Linked xs _ v

  pub shutdown_transport-Linked :
      (ctx : Context) (t : Transport W E) → Linked t → Holds Linked (shutdown_transport p ctx t)
  unfolding shutdown_transport
  shutdown_transport-Linked ctx t v =
      Holds-bind Linked Linked (unregister t.unregister_funcs) _ t
        (unregister-Linked t.unregister_funcs t v)
        λ s a w.
          Holds-bind Linked Linked (shutdown_channels p ctx t.dt_channels) _ s
            (shutdown_channels-Linked ctx t.dt_channels s w) λ s2 e w2. w2

  pub set_event_handler-Linked : (t : Transport W E) → Linked t → Holds Linked (set_event_handler t)
  unfolding set_event_handler
  set_event_handler-Linked t v = elim (Bool-cases t.events_set) [
    | inl set ↦ rw (Holds, set_event_handler, set) v
    | inr unset ↦ rw (Holds, set_event_handler, unset) v
  ]

  pub begin_request-Linked :
      (ctx : Context) (chid : ChannelId) (data_sender : Peer) (root : Cid) (stor : Node)
      (exts : List (ExtensionData W)) (t : Transport W E)
      → Linked t
      → Holds Linked (begin_request p ctx chid data_sender root stor exts t)
  unfolding begin_request
  begin_request-Linked ctx chid data_sender root stor exts t v =
      Holds-bind Linked Linked (cancel_existing p ctx chid) _ t
        (cancel_existing-Linked p ctx chid t v) λ s e w. Holds-go_on Linked e _ s w w

module _ (k : Codec) {E : Type 0} (p : Graphsync k.Wire) where
  pub resume-Linked :
      (chid : ChannelId) (msg : Option Message) (t : Transport k.Wire E)
      → Linked t
      → Holds Linked (resume k p chid msg t)
  unfolding resume
  resume-Linked chid msg t v = elim (Option-cases (held t chid).request_id) [
    | inl without ↦ rw (Holds, resume, without) v
    | inr (r, has) ↦ elim (Result-cases (extensions_of k msg t.supported_extensions)) [
      | inl (e, failed) ↦ rw (Holds, resume, has, failed) v
      | inr (exts, made) ↦ elim (Bool-cases (held t chid).requester_cancelled) [
        | inl gone ↦
            rw (Holds, resume, has, made, gone)
              (put_channel-Linked t chid _ v (λ q h. v.current chid q h)
                λ q h. v.announced chid q h)
        | inr here ↦
            rw (Holds, resume, has, made, here)
              (put_channel-Linked t chid _ v (λ q h. v.current chid q h)
                λ q h. v.announced chid q h)
      ]
    ]
  ]

  module _ (h : EventsHandler (Transport k.Wire E)) where
    pub admit_request-Linked :
        (chid : ChannelId) (r : RequestId) (asked_to_pause : Bool) (t : Transport k.Wire E)
        → Linked t
        → Tracks t chid
        → Free t r chid
        → Holds Linked (admit_request k p h chid r asked_to_pause t)
    unfolding admit_request
    admit_request-Linked chid r asked t v there free =
        elim (Bool-cases (starts_paused asked (held t chid))) [
          | inl paused ↦ rw (Holds, admit_request, paused) (finish _ v there free)
          | inr runs ↦
              rw (Holds, admit_request, runs)
                (finish _
                  (put_channel-Linked t chid _ v (λ q h. v.current chid q h)
                    λ q h. v.announced chid q h)
                  (put_channel-Tracks t chid _) free)
        ]
      where
        finish :
            (s : Transport k.Wire E)
            → Linked s
            → Tracks s chid
            → Free s r chid
            → Holds Linked (
                (tell (augment_context chid)
                    >> gs_data_request_rcvd chid r
                    >> tell validate_request)
                  s)
        finish s w tracked clear =
            let s2 : Transport k.Wire E = record s {
              gs_calls = augment_context chid ∷ s.gs_calls;
            } in
            Holds-bind Linked Linked (gs_data_request_rcvd chid r) _ s2
              (gs_data_request_rcvd-Linked chid r s2 w tracked clear) λ s3 a x. x
