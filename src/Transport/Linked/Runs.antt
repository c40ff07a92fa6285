-- ===== src/Transport/Linked/Runs.antt =====
-- The transport as a state machine: what its methods and hooks do to its channels, in any order.
use go_data_transfer.Base.{
  ◌≡◌, inl, inr, find, Option-cases, Bool, List, [], ◌∷◌, Option, none, some, String,
}
use go_data_transfer.Types.{Peer, Cid, Node, ChannelId}
use go_data_transfer.Errors.{Err}
use go_data_transfer.Messages.Wire.{Message, Codec}
use go_data_transfer.Transport.Extension.{ExtensionData}
use go_data_transfer.Transport.World.{
  RequestId, by_channel, Transport, Graphsync, Context, Act, EventsHandler, ◌>>=◌, ◌>>◌, done,
  change,
}
use go_data_transfer.Transport.Tracking.{track_dt_channel}
use go_data_transfer.Transport.Channel.{
  begin_request, await_opened, gs_req_opened, pause, resume, close, on_requester_cancelled,
}
use go_data_transfer.Transport.{
  closing_error, cleanup_channel, pause_channel, resume_channel, close_channel, use_store_for,
  set_event_handler, shutdown_transport, new_transport, on_tracked,
}
use go_data_transfer.Transport.Messaging.{admit_request}
use go_data_transfer.Transport.Rules.{Holds, Holds-bind}
use go_data_transfer.Transport.Linked.{Linked, Free, put_channel-Linked}
use go_data_transfer.Transport.Linked.Operations.{
  never, track_dt_channel-Linked, track_dt_channel-Tracks, await_opened-Linked,
  gs_req_opened-Linked, close-Linked,
}
use go_data_transfer.Transport.Linked.Methods.{
  on_tracked-Linked, pause-Linked, use_store-Linked, cleanup_channel-Linked,
  shutdown_transport-Linked, set_event_handler-Linked, begin_request-Linked, resume-Linked,
  admit_request-Linked,
}

-- A method, or the part of a hook that changes the maps. The opening of a channel stands here as what
-- it does before it waits for the ID of the request, and what it does then.
pub data Operation (W : Type 0) : Type 0 where
  setting_handler : Operation W
  storing cleaning pausing requester_cancelling : ChannelId → Operation W
  opening : Context → ChannelId → Peer → Cid → Node → List (ExtensionData W) → Operation W
  awaiting closing : Context → ChannelId → Operation W
  announcing : ChannelId → RequestId → Operation W
  admitting : ChannelId → RequestId → Bool → Operation W
  resuming : Option Message → ChannelId → Operation W
  shutting_down : Context → Operation W

module _ (k : Codec) {E : Type 0} (p : Graphsync k.Wire)
    (h : EventsHandler (Transport k.Wire E)) where
  abbrev ignoring : Act (Transport k.Wire E) (Option Err) → Act (Transport k.Wire E) (Unit {0})
  ignoring m = m >> done tt

  unfoldable pub perform : Operation k.Wire → Act (Transport k.Wire E) (Unit {0})
  perform setting_handler = ignoring set_event_handler
  perform (storing chid) = ignoring (use_store_for p chid)
  perform (cleaning chid) = cleanup_channel p chid
  perform (pausing chid) = ignoring (pause_channel p chid)
  perform (requester_cancelling chid) =
      ignoring (on_tracked chid (on_requester_cancelled chid >> done none))
  perform (opening ctx chid sender root stor exts) =
      change (track_dt_channel chid) >> ignoring (begin_request p ctx chid sender root stor exts)
  perform (awaiting ctx chid) = ignoring (await_opened ctx chid)
  perform (closing ctx chid) = ignoring (close_channel p ctx chid)
  perform (announcing chid r) = change (track_dt_channel chid) >> gs_req_opened chid r
  perform (admitting chid r asked) =
      change (track_dt_channel chid) >> admit_request k p h chid r asked
  perform (resuming msg chid) = ignoring (resume_channel k p msg chid)
  perform (shutting_down ctx) = ignoring (shutdown_transport p ctx)

  abbrev pub state_after :
      {A : Type 0} → Transport k.Wire E → Option (Transport k.Wire E × A) → Transport k.Wire E
  state_after t none = t
  state_after t (some (s, a)) = s

  -- An operation that would wait without end is passed over.
  abbrev pub perform_all : List (Operation k.Wire) → Transport k.Wire E → Transport k.Wire E
  perform_all [] t = t
  perform_all (o ∷ os) t = perform_all os (state_after t (perform o t))

  -- The IDs that graphsync makes are not those of another channel.
  abbrev pub FreeFor : Operation k.Wire → Transport k.Wire E → Type 0
  FreeFor (announcing chid r) t = Free t r chid
  FreeFor (admitting chid r asked) t = Free t r chid
  FreeFor _ t = Unit

  abbrev pub AllFree : List (Operation k.Wire) → Transport k.Wire E → Type 0
  AllFree [] t = Unit
  AllFree (o ∷ os) t = FreeFor o t × AllFree os (state_after t (perform o t))

  ignoring-Linked :
      (m : Act (Transport k.Wire E) (Option Err)) (t : Transport k.Wire E)
      → Holds Linked (m t)
      → Holds Linked (ignoring m t)
  ignoring-Linked m t w = Holds-bind Linked Linked m (λ e. done tt) t w λ s e x. x

  track_dt_channel-Free :
      (t : Transport k.Wire E) (chid : ChannelId) (r : RequestId)
      → Free t r chid
      → Free (track_dt_channel chid t) r chid
  unfolding track_dt_channel
  track_dt_channel-Free t chid r free = elim (Option-cases (find by_channel t.dt_channels chid)) [
    | inl missing ↦ rw (Free, track_dt_channel, missing) free
    | inr (c, there) ↦ rw (Free, track_dt_channel, there) free
  ]

  perform-Linked :
      (o : Operation k.Wire) (t : Transport k.Wire E)
      → Linked t
      → FreeFor o t
      → Holds Linked (perform o t)
  unfolding perform use_store_for pause_channel close_channel resume_channel
  perform-Linked setting_handler t v free =
      ignoring-Linked set_event_handler t (set_event_handler-Linked p t v)
  perform-Linked (storing chid) t v free =
      ignoring-Linked (use_store_for p chid) t
        (use_store-Linked p chid (track_dt_channel chid t) (track_dt_channel-Linked t chid v))
  perform-Linked (cleaning chid) t v free = cleanup_channel-Linked p chid t v
  perform-Linked (pausing chid) t v free =
      ignoring-Linked (pause_channel p chid) t
        (on_tracked-Linked p chid (pause p chid) t v (pause-Linked p chid t v))
  perform-Linked (requester_cancelling chid) t v free =
      let m : Act (Transport k.Wire E) (Option Err) = on_requester_cancelled chid >> done none in
      ignoring-Linked (on_tracked chid m) t (
        on_tracked-Linked p chid m t v
          (put_channel-Linked t chid _ v (λ q g. v.current chid q g) λ q g. v.announced chid q g))
  perform-Linked (opening ctx chid sender root stor exts) t v free =
      let s = track_dt_channel chid t in
      ignoring-Linked (begin_request p ctx chid sender root stor exts) s
        (begin_request-Linked p ctx chid sender root stor exts s (track_dt_channel-Linked t chid v))
  perform-Linked (awaiting ctx chid) t v free =
      ignoring-Linked (await_opened ctx chid) t (await_opened-Linked ctx chid t v)
  perform-Linked (closing ctx chid) t v free =
      let m : Act (Transport k.Wire E) (Option Err) =
        close p ctx chid >>= λ e. done (closing_error e) in
      ignoring-Linked (on_tracked chid m) t (
        on_tracked-Linked p chid m t v (
          Holds-bind Linked Linked (close p ctx chid) _ t (close-Linked p ctx chid t v) λ s e w. w))
  perform-Linked (announcing chid r) t v free =
      gs_req_opened-Linked chid r (track_dt_channel chid t) (track_dt_channel-Linked t chid v)
        (track_dt_channel-Tracks t chid) (track_dt_channel-Free t chid r free)
  perform-Linked (admitting chid r asked) t v free =
      admit_request-Linked k p h chid r asked (track_dt_channel chid t)
        (track_dt_channel-Linked t chid v) (track_dt_channel-Tracks t chid)
        (track_dt_channel-Free t chid r free)
  perform-Linked (resuming msg chid) t v free =
      ignoring-Linked (resume_channel k p msg chid) t
        (on_tracked-Linked p chid (resume k p chid msg) t v (resume-Linked k p chid msg t v))
  perform-Linked (shutting_down ctx) t v free =
      ignoring-Linked (shutdown_transport p ctx) t (shutdown_transport-Linked p ctx t v)

  after-Linked :
      {A : Type 0} (t : Transport k.Wire E) (r : Option (Transport k.Wire E × A))
      → Linked t
      → Holds Linked r
      → Linked (state_after t r)
  after-Linked t none v w = v
  after-Linked t (some (s, a)) v w = w

  perform_all_from :
      (os : List (Operation k.Wire)) (t : Transport k.Wire E)
      → Linked t
      → AllFree os t
      → Linked (perform_all os t)
  perform_all_from [] t v free = v
  perform_all_from (o ∷ os) t v free =
      perform_all_from os (state_after t (perform o t))
        (after-Linked t (perform o t) v (perform-Linked o t v free.0)) free.1

  new_transport-Linked :
      (options : Option (List String)) (handler : E)
      → Linked {W = k.Wire} (new_transport options handler)
  unfolding new_transport find
  new_transport-Linked options handler = record {
    current = λ chid r g. absurd (never g);
    announced = λ chid r g. absurd (never g);
    tracked = λ r chid g. absurd (none_mapped g);
  }
    where
      none_mapped : {chid : ChannelId} → none ≡ some chid → ⊥
      none_mapped g = cc

  -- Whatever operations a new transport performs, in any order, where one that would wait without end
  -- is passed over, if a request ID that graphsync makes is never one of another channel: the request
  -- that a channel has, and the one that is announced to it, map to this channel, and each request
  -- maps to a channel that is tracked.
  pub perform_all-Linked :
      (options : Option (List String)) (handler : E) (os : List (Operation k.Wire))
      → AllFree os (new_transport options handler)
      → Linked (perform_all os (new_transport options handler))
  unfolding new_transport
  perform_all-Linked options handler os free =
      perform_all_from os (new_transport options handler) (new_transport-Linked options handler)
        free
