-- ===== src/Manager/Restart/Matching.antt =====
-- What `validateRestartRequest` of impl/restart.go lets through.
use go_data_transfer.Base.{
  Bool, true, false, not, ◌≡◌, refl, ◌↔◌, inl, inr, Option, none, some, ◌==◌, ==_iff, ==_refl,
  str_eq, eq_iff, if◌then◌else◌, sym, subst, ◌∙◌,
}
use go_data_transfer.Types.{Peer, Node, ChannelId}
use go_data_transfer.Errors.{not_found, Err, Result, ok, err, other, wrapped, Result-cases}
use go_data_transfer.Channels.Internal.{ChannelState}
use go_data_transfer.Channels.Fsm.Finality.{is_channel_terminated}
use go_data_transfer.Channels.State.{channel_id, voucher}
use go_data_transfer.Channels.Group.{Group}
use go_data_transfer.Channels.Ops.{Channels, get_by_id}
use go_data_transfer.Messages.Request
use go_data_transfer.Messages.Request.{TransferRequest}
use go_data_transfer.Manager.World.{Setup}
use go_data_transfer.Manager.Restart.{validate_restart_request}

pass :
    (b : Bool) (x : Err) (r : Option Err)
    → (if not b then some x else r) ≡ none
    → (b ≡ true) × (r ≡ none)
pass true x r h = (refl, h)
pass false x r h = cc

spare :
    (b : Bool) (x : Err) (r : Option Err)
    → (if b then some x else r) ≡ none
    → (b ≡ false) × (r ≡ none)
spare true x r h = cc
spare false x r h = (refl, h)

unequal : {o : Option Err} → ((x : Err) × (o ≡ some x)) → o ≡ none → ⊥
unequal (x, e) h = cc

module _ (g : Group) (p : Setup) (c : Channels g) (peer : Peer) (chid : ChannelId)
    (req : TransferRequest) where
  -- There is a live channel that the peer has initiated, and the request has its base CID, the type of
  -- its voucher and an equal voucher.
  pub record Matching : Type 0 where
    pub channel : ChannelState
    pub node : Node
    pub stored : g.get_sync c.store chid ≡ ok channel
    pub live : is_channel_terminated channel.status ≡ false
    pub from_initiator : (channel_id channel).initiator ≡ peer
    pub same_base : Request.base_cid req ≡ channel.base_cid
    pub has_voucher : Request.voucher req ≡ ok node
    pub same_type : req.voucher_type_identifier ≡ (voucher channel).type_id
    pub same_voucher : p.deep_equal (some node) (voucher channel).voucher ≡ true

  abbrev on_voucher : ChannelState → Node → Option Err
  on_voucher channel n =
      if not (str_eq req.voucher_type_identifier (voucher channel).type_id)
      then some (other "channel and request voucher types do not match")
      else if not (p.deep_equal (some n) (voucher channel).voucher)
      then some (other "channel and request vouchers do not match")
      else none

  abbrev on_read : ChannelState → Result Node → Option Err
  on_read channel r = elim r [
    | err e ↦ some (wrapped "failed to fetch request voucher" e)
    | ok n ↦ on_voucher channel n
  ]

  abbrev checks : ChannelState → Option Err
  checks channel =
      if is_channel_terminated channel.status
      then some (other "channel is already terminated")
      else if not ((channel_id channel).initiator == peer)
      then some (other "other peer is not the initiator of the channel")
      else if not (Request.base_cid req == channel.base_cid)
      then some (other "base cid does not match")
      else on_read channel (Request.voucher req)

  validate_restart_request_stored :
      (channel : ChannelState)
      → g.get_sync c.store chid ≡ ok channel
      → validate_restart_request g p c peer chid req ≡ checks channel
  unfolding validate_restart_request get_by_id
  validate_restart_request_stored channel stored =
      rw (validate_restart_request, get_by_id, stored) refl

  validate_restart_request_missing :
      (e : Err)
      → g.get_sync c.store chid ≡ err e
      → (x : Err) × (validate_restart_request g p c peer chid req ≡ some x)
  unfolding validate_restart_request get_by_id
  validate_restart_request_missing e missing =
      rw (validate_restart_request, get_by_id, missing) (not_found chid, refl)

  voucher-Matching :
      (channel : ChannelState) (node : Node)
      → g.get_sync c.store chid ≡ ok channel
      → is_channel_terminated channel.status ≡ false
      → ((channel_id channel).initiator == peer) ≡ true
      → (Request.base_cid req == channel.base_cid) ≡ true
      → Request.voucher req ≡ ok node
      → on_voucher channel node ≡ none
      → Matching
  voucher-Matching channel node stored live e e' has h =
      let (t, h') = pass (str_eq req.voucher_type_identifier (voucher channel).type_id) _ _ h in
      let (v, _) = pass (p.deep_equal (some node) (voucher channel).voucher) _ _ h' in
      record {
        channel = channel;
        node = node;
        stored = stored;
        live = live;
        from_initiator = (==_iff (channel_id channel).initiator peer).0 e;
        same_base = (==_iff (Request.base_cid req) channel.base_cid).0 e';
        has_voucher = has;
        same_type = (eq_iff req.voucher_type_identifier (voucher channel).type_id).0 t;
        same_voucher = v;
      }

  passes-Matching :
      (channel : ChannelState)
      → g.get_sync c.store chid ≡ ok channel
      → checks channel ≡ none
      → Matching
  passes-Matching channel stored h =
      let (live, h1) = spare (is_channel_terminated channel.status) _ _ h in
      let (e, h2) = pass ((channel_id channel).initiator == peer) _ _ h1 in
      let (e', h3) = pass (Request.base_cid req == channel.base_cid) _ _ h2 in
      elim (Result-cases (Request.voucher req)) [
        | inl (x, bad) ↦ absurd (
            unequal (wrapped "failed to fetch request voucher" x, refl)
              (subst (λ r. on_read channel r ≡ none) bad h3))
        | inr (node, has) ↦
            voucher-Matching channel node stored live e e' has
              (subst (λ r. on_read channel r ≡ none) has h3)
      ]

  matches : Matching → validate_restart_request g p c peer chid req ≡ none
  unfolding validate_restart_request get_by_id
  matches m =
      let t : str_eq req.voucher_type_identifier (voucher m.channel).type_id ≡ true =
        (eq_iff req.voucher_type_identifier (voucher m.channel).type_id).1 m.same_type in
      validate_restart_request_stored m.channel m.stored
      ∙ rw
          (
            m.live,
            m.from_initiator,
            ==_refl peer,
            m.same_base,
            ==_refl m.channel.base_cid,
            m.has_voucher,
            t,
            m.same_voucher,
          )
          refl

  passed : validate_restart_request g p c peer chid req ≡ none → Matching
  passed h = elim (Result-cases (g.get_sync c.store chid)) [
    | inl (e, missing) ↦ absurd (unequal (validate_restart_request_missing e missing) h)
    | inr (channel, stored) ↦
        passes-Matching channel stored (sym (validate_restart_request_stored channel stored) ∙ h)
  ]

  -- A restart request passes just if it matches the stored channel.
  pub validate_restart_request_iff :
      (validate_restart_request g p c peer chid req ≡ none) ↔ Matching
  validate_restart_request_iff = (passed, matches)
