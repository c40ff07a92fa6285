-- ===== src/Transport/Managed/Responses.antt =====
-- What becomes of a response message that comes with a graphsync response, with the manager as the
-- handler.
use go_data_transfer.Base.{
  ◌≡◌, refl, ap, sym, subst, ◌∙◌, ◌==◌, Bool, true, false, List, [], ◌∷◌, Option, none, some,
  String, if◌then◌else◌,
}
use go_data_transfer.Types.{Peer, ChannelId, channel_id_eq, channel_id_eq_iff}
use go_data_transfer.Errors.{Err, ok, pause}
use go_data_transfer.Channels.Internal.{ChannelState}
use go_data_transfer.Channels.State.{self_paused}
use go_data_transfer.Channels.Group.{Group}
use go_data_transfer.Messages.Response.{TransferResponse}
use go_data_transfer.Messages.Build.{update_response}
use go_data_transfer.Messages.Wire.{Message, a_response, Codec, to_ipld, from_ipld}
use go_data_transfer.Manager.{on_response_received}
use go_data_transfer.Manager.Control.{controlled, pausable, on_response_received-control}
use go_data_transfer.Manager.World.{Setup, Manager}
use go_data_transfer.Transport.Extension.{
  get_transfer_data, decoders, is_known, extension_incoming_request_1_1,
  extension_outgoing_block_1_1,
}
use go_data_transfer.Transport.World.{
  RequestId, terminate_with_error, Transport, Graphsync, Act, EventsHandler, ◌>>=◌, ◌>>◌, done,
}
use go_data_transfer.Transport.Tracking.{load}
use go_data_transfer.Transport.Hooks.{GsMessage, on_mapped, channel_of, incoming_req_extensions}
use go_data_transfer.Transport.Messaging.{
  hand_over, terminate_if, process_extension, gs_incoming_response_hook,
}
use go_data_transfer.Transport.Rules.{Returns, bind_returns}
use go_data_transfer.Transport.Managed.{managed}

-- The state after an answer of the handler: an error terminates the request.
abbrev pub ended : {W E : Type 0} → Option Err → Transport W E → Transport W E
ended none s = s
ended (some e) s = record s { gs_calls = terminate_with_error (some e) ∷ s.gs_calls }

module _ {W E : Type 0} where
  ended_handler : (e : Option Err) (s : Transport W E) → (ended e s).handler ≡ s.handler
  ended_handler none s = refl
  ended_handler (some e) s = refl

  ended_calls :
      (paused b : Bool) (s : Transport W E)
      → (ended (if paused then none else if b then some pause else none) s).gs_calls ≡ (
          if paused
          then s.gs_calls
          else if b
          then terminate_with_error (some pause) ∷ s.gs_calls
          else s.gs_calls)
  ended_calls true b s = refl
  ended_calls false true s = refl
  ended_calls false false s = refl

module _ (k : Codec) {E : Type 0} (gs : Graphsync k.Wire)
    (h : EventsHandler (Transport k.Wire E)) where
  on_mapped_at :
      (r : RequestId) (f : ChannelId → Act (Transport k.Wire E) (Unit {0})) (t : Transport k.Wire E)
      (chid : ChannelId)
      → load t r ≡ some chid
      → on_mapped r f t ≡ f chid t
  on_mapped_at r f t chid maps = ap (λ (o : Option ChannelId). choose o t) maps
    where
      choose : Option ChannelId → Act (Transport k.Wire E) (Unit {0})
      choose o = elim o [ none ↦ done tt | some c ↦ f c ]

  process_extension_read :
      (chid : ChannelId) (extension : String → Option k.Wire) (other_peer : Peer)
      (exts : List String) (r : TransferResponse) (t : Transport k.Wire E)
      → get_transfer_data k extension exts ≡ some (ok (some (a_response r)))
      → channel_id_eq chid (channel_of gs.peer_id other_peer (a_response r)) ≡ true
      → process_extension k gs h chid extension other_peer exts t
        ≡ hand_over k gs h chid (a_response r) t
  unfolding process_extension
  process_extension_read chid extension other_peer exts r t reads matches =
      rw (process_extension, reads, matches) refl

  process_extension_absent :
      (chid : ChannelId) (extension : String → Option k.Wire) (other_peer : Peer)
      (exts : List String) (t : Transport k.Wire E)
      → get_transfer_data k extension exts ≡ some (ok none)
      → process_extension k gs h chid extension other_peer exts t ≡ some (t, (none, none))
  unfolding process_extension
  process_extension_absent chid extension other_peer exts t reads =
      rw (process_extension, reads) refl

  -- A graphsync response with a response message, and nothing for the second extension.
  gs_incoming_response_hook-ended :
      (t s : Transport k.Wire E) (chid : ChannelId) (other_peer : Peer) (r : TransferResponse)
      (e : Option Err) (response : GsMessage k.Wire)
      → load t response.id ≡ some chid
      → get_transfer_data k response.extension incoming_req_extensions
        ≡ some (ok (some (a_response r)))
      → get_transfer_data k response.extension (extension_outgoing_block_1_1 ∷ []) ≡ some (ok none)
      → channel_id_eq chid (channel_of gs.peer_id other_peer (a_response r)) ≡ true
      → h.on_response_received chid r t ≡ some (s, e)
      → gs_incoming_response_hook k gs h other_peer response t ≡ some (ended e s, tt)
  unfolding gs_incoming_response_hook
  gs_incoming_response_hook-ended t s chid other_peer r e response maps reads none_more matches
        answers =
      on_mapped_at response.id _ t chid maps
      ∙ (bind_returns
            (process_extension k gs h chid response.extension other_peer incoming_req_extensions) _
            t s (none, e) first
          ∙ finish e)
    where
      first :
          process_extension k gs h chid response.extension other_peer incoming_req_extensions t
          ≡ some (s, (none, e))
      first =
          process_extension_read chid response.extension other_peer incoming_req_extensions r t
            reads matches
          ∙ bind_returns (h.on_response_received chid r) (λ x. done (none, x)) t s e answers

      again : Act (Transport k.Wire E) (Option Message × Option Err)
      again =
          process_extension k gs h chid response.extension other_peer
            (extension_outgoing_block_1_1 ∷ [])

      finish :
          (x : Option Err)
          → (terminate_if k gs h x >> (again >>= λ (answer2, e2). terminate_if k gs h e2)) s
            ≡ some (ended x s, tt)
      finish none =
          bind_returns again _ s s (none, none)
            (process_extension_absent chid response.extension other_peer
              (extension_outgoing_block_1_1 ∷ []) s none_more)
      finish (some x) =
          bind_returns again _ (ended (some x) s) (ended (some x) s) (none, none)
            (process_extension_absent chid response.extension other_peer
              (extension_outgoing_block_1_1 ∷ []) (ended (some x) s) none_more)

module _ (k : Codec) (g : Group) (p : Setup) (gs : Graphsync k.Wire) where
  -- An update response of the responder that comes with a graphsync response of a request that this
  -- node has made for a channel that it initiated, in a status in which it may pause. The manager
  -- stores the flag of the responder. The graphsync request goes on, unless the responder has resumed
  -- a channel that this node has paused itself: then it is terminated, with the pause as the error.
  pub gs_incoming_response_hook-control :
      (t : Transport k.Wire (Manager g)) (chid : ChannelId) (paused : Bool) (ch : ChannelState)
      (response : GsMessage k.Wire)
      → gs.peer_id ≡ p.peer_id
      → chid.initiator ≡ p.peer_id
      → (chid.responder == p.peer_id) ≡ false
      → load t response.id ≡ some chid
      → response.extension extension_incoming_request_1_1
        ≡ some (to_ipld k (a_response (update_response chid.id paused)))
      → response.extension extension_outgoing_block_1_1 ≡ none
      → from_ipld k (to_ipld k (a_response (update_response chid.id paused)))
        ≡ ok (a_response (update_response chid.id paused))
      → g.get_sync t.handler.channels.store chid ≡ ok ch
      → pausable ch.status ≡ true
      → Returns
          (λ s a.
            let after = controlled (g.clock t.handler.channels.store) paused ch in
            (g.get_sync s.handler.channels.store chid ≡ ok after)
            × (s.gs_calls ≡ (
                if paused
                then t.gs_calls
                else if self_paused after
                then terminate_with_error (some pause) ∷ t.gs_calls
                else t.gs_calls)))
          (gs_incoming_response_hook k gs (managed g p) chid.responder response t)
  unfolding get_transfer_data decoders is_known
  gs_incoming_response_hook-control t chid paused ch response self mine apart maps has no_more back
        got h =
      let r = update_response chid.id paused in
      let answer = on_response_received g p.peer_id chid r t.handler.channels in
      let (stored, told_pause) =
        on_response_received-control g p.peer_id chid paused t.handler.channels ch apart got h in
      rw
        (gs_incoming_response_hook-ended k gs (managed g p) t
          (record t { handler = record t.handler { channels = answer.0 } }) chid chid.responder r
          answer.1 response maps (rw (get_transfer_data, has, decoders, back) refl)
          (rw (get_transfer_data, no_more) refl) (matching mine self) refl)
        (
          subst
              (λ x.
                g.get_sync x.channels.store chid
                ≡ ok (controlled (g.clock t.handler.channels.store) paused ch))
              (sym (
                ended_handler answer.1
                  (record t { handler = record t.handler { channels = answer.0 } })))
              stored,
          ap
                (λ e.
                  (ended e
                    (record t { handler = record t.handler { channels = answer.0 } })).gs_calls)
                told_pause
              ∙ ended_calls paused
                  (self_paused (controlled (g.clock t.handler.channels.store) paused ch))
                  (record t { handler = record t.handler { channels = answer.0 } }),
        )
    where
      matching :
          chid.initiator ≡ p.peer_id
          → gs.peer_id ≡ p.peer_id
          → channel_id_eq chid
              (channel_of gs.peer_id chid.responder (a_response (update_response chid.id paused)))
            ≡ true
      matching mine self = (channel_id_eq_iff chid _).1 (
          ap (λ x. record { initiator = x; responder = chid.responder; id = chid.id })
            (mine ∙ sym self))
