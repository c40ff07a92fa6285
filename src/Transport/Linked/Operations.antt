-- ===== src/Transport/Linked/Operations.antt =====
-- What each method of a channel does to the two maps.
use go_data_transfer.Base.{
  ◌≡◌, inl, inr, subst, ◌∙◌, Bool, true, false, List, [], none, some, Option-cases, Bool-cases,
  find,
}
use go_data_transfer.Types.{ChannelId}
use go_data_transfer.Transport.World.{
  RequestId, GsCall, DtChannel, Transport, Graphsync, Context, for_cancel, for_opened, by_channel,
  Act, ◌>>◌, done, send_extension_data,
}
use go_data_transfer.Transport.Tracking.{
  held, put_channel, set_request, load_in, track_dt_channel, new_dt_channel,
}
use go_data_transfer.Transport.Channel.{
  cancel_gs_request, cancel_existing, await_opened, await_cancel, await_cancelled, use_store_of,
  gs_req_opened, send_pending, gs_data_request_rcvd, take_request, close,
}
use go_data_transfer.Transport.Rules.{Holds, Holds-bind, tell_all-told}
use go_data_transfer.Transport.Tracking.Lookup.{load_in-insert}
use go_data_transfer.Transport.Linked.{
  some_eq, Linked, Tracks, Free, put_channel-Tracks, put_channel-Linked, set_request-Linked,
}

pub never : {r : RequestId} → none ≡ some r → ⊥
never h = cc

module _ {W E : Type 0} where
  -- What only records calls leaves the maps to what follows.
  Holds-use_store_of :
      {A : Type 0} (Q : Transport W E → Type 0) (chid : ChannelId) (c : DtChannel W)
      (f : Act (Transport W E) A) (t : Transport W E)
      → ((calls : List (GsCall W)) → Holds Q (f (record t { gs_calls = calls })))
      → Holds Q ((use_store_of chid c >> f) t)
  Holds-use_store_of Q chid c f t h = go c.store_registered
    where
      go : (b : Bool) → Holds Q ((use_store_of chid (record c { store_registered = b }) >> f) t)
      go true = h _
      go false = h t.gs_calls

  -- What a channel that is tracked newly has is nothing.
  pub track_dt_channel-Linked :
      (t : Transport W E) (chid : ChannelId) → Linked t → Linked (track_dt_channel chid t)
  unfolding track_dt_channel
  track_dt_channel-Linked t chid v = elim (Option-cases (find by_channel t.dt_channels chid)) [
    | inr (c, there) ↦ rw (track_dt_channel, there) v
    | inl missing ↦
        rw (track_dt_channel, missing)
          (put_channel-Linked t chid (new_dt_channel chid) v (λ r h. absurd (never h))
            λ r h. absurd (never h))
  ]

  pub track_dt_channel-Tracks :
      (t : Transport W E) (chid : ChannelId) → Tracks (track_dt_channel chid t) chid
  unfolding track_dt_channel
  track_dt_channel-Tracks t chid = elim (Option-cases (find by_channel t.dt_channels chid)) [
    | inr (c, there) ↦ rw (track_dt_channel, there) λ h. cc
    | inl missing ↦ rw (track_dt_channel, missing) (put_channel-Tracks t chid (new_dt_channel chid))
  ]

  pub cancel_gs_request-Linked :
      (p : Graphsync W) (chid : ChannelId) (t : Transport W E)
      → Linked t
      → Holds Linked (cancel_gs_request p chid t)
  unfolding cancel_gs_request
  cancel_gs_request-Linked p chid t v = elim (Bool-cases (held t chid).requester_cancelled) [
    | inl gone ↦ rw (cancel_gs_request, gone) v
    | inr here ↦ elim (Option-cases (held t chid).request_id) [
      | inl without ↦ rw (cancel_gs_request, here, without) v
      | inr (r, has) ↦
          rw (cancel_gs_request, here, has)
            (put_channel-Linked t chid _ v (λ q h. absurd (never h)) λ q h. v.announced chid q h)
    ]
  ]

  pub await_opened-Linked :
      (ctx : Context) (chid : ChannelId) (t : Transport W E)
      → Linked t
      → Holds Linked (await_opened ctx chid t)
  unfolding await_opened
  await_opened-Linked ctx chid t v = elim (Option-cases (ctx for_opened)) [
    | inr (e, over) ↦ rw (await_opened, over) v
    | inl on ↦ elim (Option-cases (held t chid).opened) [
      | inl empty ↦ rw (await_opened, on, empty) tt
      | inr (r, is) ↦
          rw (await_opened, on, is)
            (put_channel-Linked t chid _ v (λ q h. v.announced chid q (is ∙ h))
              λ q h. absurd (never h))
    ]
  ]

  pub gs_req_opened-Linked :
      (chid : ChannelId) (r : RequestId) (t : Transport W E)
      → Linked t
      → Tracks t chid
      → Free t r chid
      → Holds Linked (gs_req_opened chid r t)
  unfolding gs_req_opened
  gs_req_opened-Linked chid r t v there free =
      Holds-use_store_of Linked chid (held t chid) _ t λ calls.
        elim (Option-cases (held t chid).opened) [
          | inr (q, full) ↦ rw full tt
          | inl empty ↦
              let w = set_request-Linked t r false chid v there free in
              rw empty (
                put_channel-Linked (set_request r false chid t) chid _ w (λ q h. w.current chid q h)
                  λ q h.
                    subst
                      (λ x.
                        load_in (set_request r false chid t).request_id_to_channel_id x ≡ some chid)
                      (some_eq h) (load_in-insert t.request_id_to_channel_id r _))
        ]

  send_pending-Ready :
      (chid : ChannelId) (r : RequestId) (t : Transport W E)
      → Linked t
      → Tracks t chid
      → Free t r chid
      → Holds (λ s. Linked s × Tracks s chid × Free s r chid) (send_pending chid t)
  unfolding send_pending
  send_pending-Ready chid r t v there free = elim (Bool-cases (held t chid).requester_cancelled) [
    | inr here ↦ rw (Holds, send_pending, here) (v, there, free)
    | inl gone ↦
        rw
          (
            Holds,
            send_pending,
            gone,
            tell_all-told send_extension_data (held t chid).pending_extensions (
                put_channel chid
                  (record (held t chid) { requester_cancelled = false; pending_extensions = [] })
                  t),
          )
          (
            put_channel-Linked t chid _ v (λ q h. v.current chid q h) (λ q h. v.announced chid q h),
            put_channel-Tracks t chid _,
            free,
          )
  ]

  pub gs_data_request_rcvd-Linked :
      (chid : ChannelId) (r : RequestId) (t : Transport W E)
      → Linked t
      → Tracks t chid
      → Free t r chid
      → Holds Linked (gs_data_request_rcvd chid r t)
  unfolding gs_data_request_rcvd take_request
  gs_data_request_rcvd-Linked chid r t v there free =
      Holds-bind Ready Linked (send_pending chid) _ t (send_pending-Ready chid r t v there free)
        λ s a (w, tracked, clear). Holds-use_store_of Linked chid (held s chid) _ s λ calls.
          let u = set_request-Linked s r true chid w tracked clear in
          put_channel-Linked (set_request r true chid s) chid _ u
            (λ q h.
              subst
                (λ x. load_in (set_request r true chid s).request_id_to_channel_id x ≡ some chid)
                (some_eq h) (load_in-insert s.request_id_to_channel_id r _))
            λ q h. u.announced chid q h
    where
      Ready : Transport W E → Type 0
      Ready s = Linked s × Tracks s chid × Free s r chid

  pub cancel_existing-Linked :
      (p : Graphsync W) (ctx : Context) (chid : ChannelId) (t : Transport W E)
      → Linked t
      → Holds Linked (cancel_existing p ctx chid t)
  unfolding cancel_existing
  cancel_existing-Linked p ctx chid t v = elim (Option-cases (held t chid).request_id) [
    | inl without ↦ rw (Holds, cancel_existing, without) v
    | inr (r, has) ↦
        rw (Holds, cancel_existing, has)
          (Holds-bind Linked Linked (cancel_gs_request p chid) (λ e. done (await_cancelled ctx e)) t
            (cancel_gs_request-Linked p chid t v) λ s e w. w)
  ]

  pub close-Linked :
      (p : Graphsync W) (ctx : Context) (chid : ChannelId) (t : Transport W E)
      → Linked t
      → Holds Linked (close p ctx chid t)
  unfolding close
  close-Linked p ctx chid t v = elim (Option-cases (held t chid).request_id) [
    | inr (r, has) ↦
        rw (Holds, close, has)
          (Holds-bind Linked Linked (cancel_gs_request p chid) (λ e. done (await_cancel ctx e)) t
            (cancel_gs_request-Linked p chid t v) λ s e w. w)
    | inl without ↦ elim (Option-cases (ctx for_cancel)) [
      | inl on ↦ rw (Holds, close, without, on) tt
      | inr (e, over) ↦ rw (Holds, close, without, over) v
    ]
  ]
