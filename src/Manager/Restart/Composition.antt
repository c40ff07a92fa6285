-- ===== src/Manager/Restart/Composition.antt =====
-- A restart of a channel by its initiator, and the check of the request by the other peer: impl/impl.go
-- and impl/restart.go of the one, and impl/restart.go of the other.
use go_data_transfer.Base.{
  Bool, true, false, ◌≡◌, refl, sym, ap, subst, List, ◌∷◌, Option, none, some, ◌==◌, ==_refl,
  Bool-cases, inl, inr, String,
}
use go_data_transfer.Types.{Peer, Node, ChannelId, TypedVoucher}
use go_data_transfer.Errors.{Err, ok, wrapped}
use go_data_transfer.Channels.Internal.{ChannelState}
use go_data_transfer.Channels.Fsm.Finality.{is_channel_terminated, is_channel_cleaning_up}
use go_data_transfer.Channels.State.{channel_id, voucher, is_pull, other_peer}
use go_data_transfer.Channels.Group.{Group}
use go_data_transfer.Channels.Ops.{Channels, get_by_id}
use go_data_transfer.Messages.{undef, or_empty}
use go_data_transfer.Messages.Request.{TransferRequest, is_restart}
use go_data_transfer.Messages.Build.{filled_request}
use go_data_transfer.Messages.Wire.{a_request}
use go_data_transfer.Manager.World.{
  Setup, Manager, Step, Call, send_message, open_transfer, ◌>>=◌, ◌>>◌, done, attempt, call, tell,
  protect,
}
use go_data_transfer.Manager.Rules.{Ends, Ends-bind}
use go_data_transfer.Manager.Restart.{
  restarting, open_push_restart_channel, open_pull_restart_channel, restart_data_transfer_channel,
  validate_restart_request, configure_transport, monitor_channel, stop_monitoring,
}
use go_data_transfer.Manager.Restart.Configuring.{configure_transport_keeps}
use go_data_transfer.Manager.Restart.Matching.{Matching, validate_restart_request_iff}

-- The request that a call carries, and the peer that it goes to.
abbrev pub asks : Call → Option (Peer × TransferRequest)
asks (send_message to (a_request req)) = some (to, req)
asks (open_transfer to chid base_cid selector channel (a_request req)) = some (to, req)
asks _ = none

-- The ID that `receiveRequest` of impl/receiver.go makes of the sender of a request, this node and the
-- transfer ID.
abbrev pub meant_by : Peer → Peer → TransferRequest → ChannelId
meant_by sender self req = record { initiator = sender; responder = self; id = req.transfer_id }

meant_by_eq :
    (chid : ChannelId) (sender self : Peer)
    → chid.initiator ≡ sender
    → self ≡ chid.responder
    → chid ≡ (record { initiator = sender; responder = self; id = chid.id })
meant_by_eq chid sender self a b = rw (sym a, b) refl

module _ (g : Group) (p : Setup) where
  -- The last call carries this request to this peer.
  abbrev pub Asked : Peer → (TransferRequest → Type 0) → Manager g → Type 0
  Asked to P s' =
      (k : Call) × (earlier : List Call) × (req : TransferRequest) × (s'.calls ≡ k ∷ earlier)
      × (asks k ≡ some (to, req))
      × P req

  stop_monitoring-Asked :
      (to : Peer) (P : TransferRequest → Type 0) (chid : ChannelId) (made : Bool) (s : Manager g)
      → Asked to P s
      → Ends (λ s' a. Asked to P s') (stop_monitoring chid made s)
  stop_monitoring-Asked to P chid true s h = h
  stop_monitoring-Asked to P chid false s h = h

  abbrev after_call : ChannelId → Bool → String → Option Err → Step g (Option Err)
  after_call chid made text e = elim e [
    | none ↦ done none
    | some x ↦ stop_monitoring chid made >> done (some (wrapped text x))
  ]

  after_call-Asked :
      (to : Peer) (P : TransferRequest → Type 0) (chid : ChannelId) (made : Bool) (text : String)
      (s : Manager g) (e : Option Err)
      → Asked to P s
      → Ends (λ s' e'. Asked to P s') (after_call chid made text e s)
  after_call-Asked to P chid made text s none asked = asked
  after_call-Asked to P chid made text s (some x) asked =
      Ends-bind (λ s' a. Asked to P s') (λ s' e. Asked to P s') (stop_monitoring chid made)
        (λ a. done (some (wrapped text x))) s (stop_monitoring-Asked to P chid made s asked)
        λ s' a asked. asked

  -- The call of a restart, and what follows it.
  call-Asked :
      (k : Call) (to : Peer) (P : TransferRequest → Type 0) (req : TransferRequest) (text : String)
      (chid : ChannelId) (made : Bool) (s : Manager g)
      → asks k ≡ some (to, req)
      → P req
      → Ends
          (λ s' e. Asked to P s')
          (attempt
            (call p k)
            (λ x. stop_monitoring chid made >> done (some (wrapped text x)))
            (done none)
            s)
  call-Asked k to P req text chid made s ask h =
      Ends-bind (λ s' e. Asked to P s') (λ s' e. Asked to P s') (call p k)
        (after_call chid made text) s (k, s.calls, req, refl, ask, h)
        λ s' e asked. after_call-Asked to P chid made text s' e asked

  abbrev pub request_of : Bool → ChannelState → TransferRequest
  request_of pull channel =
      filled_request (channel_id channel).id true pull (or_empty p.null (some (voucher channel)))
        channel.base_cid channel.selector

  restarting-Asked :
      (pull : Bool) (k : TransferRequest → Call) (text : String) (channel : ChannelState)
      (to : Peer) (P : TransferRequest → Type 0) (s : Manager g)
      → (channel.base_cid == undef) ≡ false
      → let req = request_of pull channel in
        asks (k req) ≡ some (to, req)
        → P req
        → Ends (λ s' e. Asked to P s') (restarting g p pull k text channel s)
  restarting-Asked pull k text channel to P s made ask h =
      let chid : ChannelId = channel_id channel in
      let req : TransferRequest = request_of pull channel in
      rw (Ends, made)
        (Ends-bind (λ s' a. s'.channels ≡ s.channels) (λ s' e. Asked to P s')
          (configure_transport chid (voucher channel))
          (λ a. tell (protect (other_peer channel) chid) >> (do
            made ← monitor_channel chid
            attempt (call p (k req))
                (λ x. stop_monitoring chid made >> done (some (wrapped text x))) (done none)))
          s (configure_transport_keeps g chid (voucher channel) s)
          λ s' a u. call-Asked (k req) to P req text chid _ _ ask h)

  -- A channel that this node has initiated, and the one of the other peer that it is restarted with:
  -- live, of the same identifier, base CID and voucher.
  pub record Counterpart (p' : Setup) (c : Channels g) (mine : ChannelState) : Type 0 where
    pub theirs : ChannelState
    pub responding : p'.peer_id ≡ (channel_id mine).responder
    pub node : Node
    pub stored : g.get_sync c.store (channel_id mine) ≡ ok theirs
    pub live : is_channel_terminated theirs.status ≡ false
    pub same_id : channel_id theirs ≡ channel_id mine
    pub same_base : theirs.base_cid ≡ mine.base_cid
    pub same_voucher : voucher theirs ≡ voucher mine
    pub present : (voucher mine).voucher ≡ some node
    -- `ipld.DeepEqual` of a node and itself
    pub reflexive : p'.deep_equal (some node) (some node) ≡ true

  -- The other peer takes the request for one to restart the channel of this ID and direction, by the
  -- ID that it makes of its sender, of itself and of the transfer ID, and its check lets it through.
  pub record LetThrough (p' : Setup) (c : Channels g) (mine : ChannelState) (req : TransferRequest)
      : Type 0 where
    pub restarts : is_restart req ≡ true
    pub same_direction : req.pull ≡ is_pull mine
    pub addressed : meant_by p.peer_id p'.peer_id req ≡ channel_id mine
    pub passes :
        validate_restart_request g p' c p.peer_id (meant_by p.peer_id p'.peer_id req) req ≡ none

  request_of-Matching :
      (pull : Bool) (p' : Setup) (c : Channels g) (mine : ChannelState)
      → Counterpart p' c mine
      → Matching g p' c (channel_id mine).initiator (channel_id mine) (request_of pull mine)
  request_of-Matching pull p' c mine m = record {
    channel = m.theirs;
    node = m.node;
    stored = m.stored;
    live = m.live;
    from_initiator = ap (λ (x : ChannelId). x.initiator) m.same_id;
    same_base = sym m.same_base;
    has_voucher = rw m.present refl;
    same_type = ap (λ (v : TypedVoucher). v.type_id) (sym m.same_voucher);
    same_voucher = rw (m.same_voucher, m.present) m.reflexive;
  }

  request_of-LetThrough :
      (pull : Bool) (p' : Setup) (c : Channels g) (mine : ChannelState)
      → Counterpart p' c mine
      → (channel_id mine).initiator ≡ p.peer_id
      → pull ≡ is_pull mine
      → LetThrough p' c mine (request_of pull mine)
  request_of-LetThrough pull p' c mine m own direction =
      let req : TransferRequest = request_of pull mine in
      let meant : channel_id mine ≡ meant_by p.peer_id p'.peer_id req =
        meant_by_eq (channel_id mine) p.peer_id p'.peer_id own m.responding in
      let check : validate_restart_request g p' c p.peer_id (channel_id mine) req ≡ none =
        subst (λ x. validate_restart_request g p' c x (channel_id mine) req ≡ none) own
          ((validate_restart_request_iff g p' c (channel_id mine).initiator (channel_id mine) req).1
            (request_of-Matching pull p' c mine m)) in
      record {
        restarts = refl;
        same_direction = direction;
        addressed = sym meant;
        passes = subst (λ x. validate_restart_request g p' c p.peer_id x req ≡ none) meant check;
      }

  -- A node restarts a channel that it has initiated, which is neither terminated nor cleaning up and
  -- has a base CID, and which the other peer has a counterpart of. Whatever the network and the
  -- transport answer, the last call sends the other peer of the channel a request to restart it, in
  -- its direction. The ID that this peer makes of the sender, itself and the transfer ID is that of
  -- the channel, and the check of this peer for that ID lets the request through.
  pub restart_data_transfer_channel-validate_restart_request :
      (chid : ChannelId) (mine : ChannelState) (s : Manager g) (p' : Setup) (c : Channels g)
      → g.get_sync s.channels.store chid ≡ ok mine
      → is_channel_terminated mine.status ≡ false
      → is_channel_cleaning_up mine.status ≡ false
      → (channel_id mine).initiator ≡ p.peer_id
      → (mine.base_cid == undef) ≡ false
      → Counterpart p' c mine
      → Ends
          (λ s' e. Asked (other_peer mine) (LetThrough p' c mine) s')
          (restart_data_transfer_channel g p chid s)
  unfolding restart_data_transfer_channel open_push_restart_channel open_pull_restart_channel
      get_by_id
  restart_data_transfer_channel-validate_restart_request chid mine s p' c got live calm own base m =
      elim (Bool-cases (is_pull mine)) [
        | inl h ↦
            rw (Ends, get_by_id, got, live, calm, h, own, ==_refl p.peer_id)
              (restarting-Asked true
                (λ req.
                  open_transfer (other_peer mine) (channel_id mine) mine.base_cid mine.selector
                    (some mine) (a_request req))
                "Unable to send open channel restart request" mine (other_peer mine)
                (LetThrough p' c mine) s base refl
                (request_of-LetThrough true p' c mine m own (sym h)))
        | inr h ↦
            rw (Ends, get_by_id, got, live, calm, h, own, ==_refl p.peer_id)
              (restarting-Asked false (λ req. send_message (other_peer mine) (a_request req))
                "Unable to send restart request" mine (other_peer mine) (LetThrough p' c mine) s
                base refl (request_of-LetThrough false p' c mine m own (sym h)))
      ]
