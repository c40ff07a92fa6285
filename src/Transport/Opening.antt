-- ===== src/Transport/Opening.antt =====
-- What the opening of a graphsync request leads to, on a new channel and on a restart.
use go_data_transfer.Base.{
  ◌≡◌, inl, inr, refl, ap, ◌∙◌, Bool, true, List, ◌∷◌, Option, none, some, Option-cases, Bool-cases,
  if◌then◌else◌,
}
use go_data_transfer.Types.{Peer, Cid, Node, ChannelId}
use go_data_transfer.Errors.{Err}
use go_data_transfer.Transport.Extension.{ExtensionData}
use go_data_transfer.Transport.World.{
  RequestId, GsCall, gs_request, gs_cancel, use_persistence_option, DtChannel, Transport, Graphsync,
  Wait, Context, for_completion, for_cancel, for_opened,
}
use go_data_transfer.Transport.Tracking.{held, load}
use go_data_transfer.Transport.Tracking.Lookup.{held-put_channel, load_in-insert}
use go_data_transfer.Transport.Channel.{
  cancel_gs_request, cancel_error, cancel_existing, await_cancelled, begin_request, await_opened,
  open_request, gs_req_opened,
}
use go_data_transfer.Transport.Rules.{Returns, Returns-bind}

module _ {W : Type 0} where
  -- The calls with the cancel of an existing request, unless the requester has cancelled it.
  abbrev pub with_cancel : DtChannel W → List (GsCall W) → List (GsCall W)
  with_cancel c calls = elim c.request_id [
    | none ↦ calls
    | some q ↦ if c.requester_cancelled then calls else gs_cancel q ∷ calls
  ]

  abbrev pub with_store : Bool → ChannelId → List (GsCall W) → List (GsCall W)
  with_store stored chid calls = if stored then use_persistence_option chid ∷ calls else calls

module _ {W E : Type 0} (p : Graphsync W) (ctx : Context) (chid : ChannelId) where
  -- The channel is open with the request, which maps to it, and these are the calls.
  pub record Opened (r : RequestId) (calls : List (GsCall W)) (s : Transport W E) (e : Option Err)
      : Type 0 where
    pub fine : e ≡ none
    pub open_now : (held s chid).is_open ≡ true
    pub current : (held s chid).request_id ≡ some r
    pub empty : (held s chid).opened ≡ none
    pub mapped : load s r ≡ some chid
    pub called : s.gs_calls ≡ calls

  record Ready (stored : Bool) (calls : List (GsCall W)) (s : Transport W E) (e : Option Err)
      : Type 0 where
    fine : e ≡ none
    empty : (held s chid).opened ≡ none
    same_store : (held s chid).store_registered ≡ stored
    called : s.gs_calls ≡ calls

  record Announced (r : RequestId) (calls : List (GsCall W)) (s : Transport W E) : Type 0 where
    waits : (held s chid).opened ≡ some r
    mapped : load s r ≡ some chid
    called : s.gs_calls ≡ calls

  cancel_existing-Ready :
      (s : Transport W E)
      → ((w : Wait) → ctx w ≡ none)
      → ((q : RequestId) → cancel_error p (p.answer s.gs_calls (gs_cancel q)) ≡ none)
      → (held s chid).opened ≡ none
      → Returns
          (Ready (held s chid).store_registered (with_cancel (held s chid) s.gs_calls))
          (cancel_existing p ctx chid s)
  unfolding cancel_existing cancel_gs_request
  cancel_existing-Ready s on clean empty = elim (Option-cases (held s chid).request_id) [
    | inl without ↦
        rw (Returns, cancel_existing, without)
          (record {
            fine = refl;
            empty = empty;
            same_store = refl;
            called = rw (with_cancel, without) refl;
          })
    | inr (q, has) ↦ elim (Bool-cases (held s chid).requester_cancelled) [
      | inl gone ↦
          rw (Returns, cancel_existing, has, cancel_gs_request, gone)
            (record {
              fine = no_error;
              empty = empty;
              same_store = refl;
              called = rw (with_cancel, has, gone) refl;
            })
      | inr here ↦
          rw (Returns, cancel_existing, has, cancel_gs_request, here, has)
            (record {
              fine = ap (await_cancelled ctx) (clean q) ∙ no_error;
              empty = ap (λ x. x.opened) (held-put_channel s chid _) ∙ empty;
              same_store = ap (λ x. x.store_registered) (held-put_channel s chid _);
              called = rw (with_cancel, has, here) refl;
            })
    ]
  ]
    where
      no_error : await_cancelled ctx none ≡ none
      no_error = rw (await_cancelled, on for_completion, on for_cancel) refl

  begin_request-Ready :
      (data_sender : Peer) (root : Cid) (stor : Node) (exts : List (ExtensionData W))
      (s : Transport W E)
      → ((w : Wait) → ctx w ≡ none)
      → ((q : RequestId) → cancel_error p (p.answer s.gs_calls (gs_cancel q)) ≡ none)
      → (held s chid).opened ≡ none
      → Returns
          (Ready
            (held s chid).store_registered
            (gs_request data_sender root stor exts ∷ with_cancel (held s chid) s.gs_calls))
          (begin_request p ctx chid data_sender root stor exts s)
  unfolding begin_request
  begin_request-Ready data_sender root stor exts s on clean empty =
      Returns-bind _ _ (cancel_existing p ctx chid) _ s (cancel_existing-Ready s on clean empty)
        λ s2 e w. rw (w.fine) (record {
          fine = refl;
          empty = w.empty;
          same_store = w.same_store;
          called = ap (λ x. gs_request data_sender root stor exts ∷ x) w.called;
        })

  gs_req_opened-Announced :
      (r : RequestId) (s : Transport W E)
      → (held s chid).opened ≡ none
      → Returns
          (λ s' a. Announced r (with_store (held s chid).store_registered chid s.gs_calls) s')
          (gs_req_opened chid r s)
  unfolding gs_req_opened
  gs_req_opened-Announced r s empty = elim (Bool-cases (held s chid).store_registered) [
    | inl with_one ↦
        rw (Returns, gs_req_opened, with_one, empty)
          (record {
            waits = ap (λ x. x.opened) (held-put_channel s chid _);
            mapped = load_in-insert s.request_id_to_channel_id r _;
            called = rw with_one refl;
          })
    | inr plain ↦
        rw (Returns, gs_req_opened, plain, empty)
          (record {
            waits = ap (λ x. x.opened) (held-put_channel s chid _);
            mapped = load_in-insert s.request_id_to_channel_id r _;
            called = rw plain refl;
          })
  ]

  await_opened-Opened :
      (r : RequestId) (calls : List (GsCall W)) (s : Transport W E)
      → ctx for_opened ≡ none
      → Announced r calls s
      → Returns (Opened r calls) (await_opened ctx chid s)
  unfolding await_opened
  await_opened-Opened r calls s on w =
      rw (Returns, await_opened, on, w.waits)
        (record {
          fine = refl;
          open_now = ap (λ x. x.is_open) (held-put_channel s chid _);
          current = ap (λ x. x.request_id) (held-put_channel s chid _);
          empty = ap (λ x. x.opened) (held-put_channel s chid _);
          mapped = w.mapped;
          called = w.called;
        })

  -- If the context does not end, graphsync cancels without an error and no ID of an earlier request
  -- was left behind, then `open`, during which graphsync announces the new request, returns without
  -- an error. It has cancelled the request that was there, if the requester had not, before it made
  -- the new one with the extensions, for the store of the channel; the channel is open with the new
  -- request, and that maps to it.
  pub open_request-Opened :
      (r : RequestId) (data_sender : Peer) (root : Cid) (stor : Node)
      (exts : List (ExtensionData W)) (t : Transport W E)
      → ((w : Wait) → ctx w ≡ none)
      → ((q : RequestId) → cancel_error p (p.answer t.gs_calls (gs_cancel q)) ≡ none)
      → (held t chid).opened ≡ none
      → Returns
          (Opened r (
            with_store
              (held t chid).store_registered
              chid
              (gs_request data_sender root stor exts ∷ with_cancel (held t chid) t.gs_calls)))
          (open_request p ctx (gs_req_opened chid r) chid data_sender root stor exts t)
  unfolding open_request
  open_request-Opened r data_sender root stor exts t on clean empty =
      let stored = (held t chid).store_registered in
      let calls : List (GsCall W) =
        gs_request data_sender root stor exts ∷ with_cancel (held t chid) t.gs_calls in
      Returns-bind (Ready stored calls) (Opened r (with_store stored chid calls))
        (begin_request p ctx chid data_sender root stor exts) _ t
        (begin_request-Ready data_sender root stor exts t on clean empty)
        λ s e w. rw (w.fine) (
          Returns-bind _ (Opened r (with_store stored chid calls)) (gs_req_opened chid r)
            (λ a. await_opened ctx chid) s (gs_req_opened-Announced r s w.empty)
            λ s2 a v.
              await_opened-Opened r (with_store stored chid calls) s2 (on for_opened) (record {
                waits = v.waits;
                mapped = v.mapped;
                called =
                    v.called
                    ∙ (ap (λ x. with_store x chid s.gs_calls) w.same_store
                        ∙ ap (with_store stored chid) w.called);
              }))
