-- ===== src/Channels/Ops.antt =====
-- channels/channels.go: the operations of `Channels` over a group of state machines. An operation
-- takes the channels to the channels after it and its error, if any. The error that an event carries
-- comes as its text, `err.Error()`. The notifier, which publishes each event, is left out.
pub mod Named
pub mod Progress
pub mod Creation
pub mod Sending
pub mod Taking
pub mod NewLimit
pub mod Apart
use go_data_transfer.Base.{
  ◌≡◌, refl, ℕ, ℤ, Bool, true, false, not, List, [], ◌∷◌, map, Option, none, some, String, ◌==◌,
  if◌then◌else◌,
}
use go_data_transfer.Statuses.{requested}
use go_data_transfer.Events.{EventCode, open_channel}
use go_data_transfer.Types.{Peer, Cid, Node, TransferId, TypedVoucher, ChannelId}
use go_data_transfer.Errors.{Err, Result, ok, err, not_found, wrapped, is_terminated, pause}
use go_data_transfer.Channels.Internal.{ChannelState}
use go_data_transfer.Channels.Fsm.Engine.{
  Args, nothing, an_index, some_bytes, a_flag, an_error, a_voucher,
}
use go_data_transfer.Channels.State.{channel_id}
use go_data_transfer.Channels.Caches.{
  BlockIndexCache, ProgressCache, ProgressState, ReadIndexFn, ReadProgressFn, update_if_greater,
  add_progress, cache_data_limit, new_block_index_cache, new_progress_cache,
}
use go_data_transfer.Channels.Group.{Group}

pub record Channels (g : Group) : Type 0 where
  pub store : g.Store
  pub block_index_cache : BlockIndexCache
  pub progress_cache : ProgressCache

abbrev pub Op : Group → Type 0
Op g = Channels g → Channels g × Option Err

-- `if err := m; err != nil { return err }`, then `k`.
abbrev pub proceed : {g : Group} → Op g → Channels g × Option Err → Channels g × Option Err
proceed k (c, none) = k c
proceed k (c, some e) = (c, some e)

infixl 5 ◌>>◌
abbrev pub ◌>>◌ : {g : Group} → Op g → Op g → Op g
◌>>◌ m k c = proceed k (m c)

pub proceed-none :
    {g : Group} (k : Op g) (r : Channels g × Option Err) → r.1 ≡ none → proceed k r ≡ k r.0
proceed-none k (c, none) h = refl
proceed-none k (c, some e) h = cc

abbrev pub when : {g : Group} → Bool → Op g → Op g
when true m = m
when false m = λ c. (c, none)

abbrev pub fail : {g : Group} → Err → Op g
fail e = λ c. (c, some e)

-- The struct that `CreateNew` begins a channel with.
abbrev pub new_state :
    Peer → TransferId → Cid → Option Node → TypedVoucher → Peer → Peer → Peer → ChannelState
new_state self_peer tid base_cid selector voucher initiator data_sender data_receiver = record {
  self_peer = self_peer;
  transfer_id = tid;
  initiator = initiator;
  responder = if data_sender == initiator then data_receiver else data_sender;
  base_cid = base_cid;
  selector = selector;
  sender = data_sender;
  recipient = data_receiver;
  total_size = 0;
  status = requested;
  queued = 0;
  sent = 0;
  received = 0;
  message = "";
  vouchers = record { type_id = voucher.type_id; voucher = voucher.voucher } ∷ [];
  voucher_results = [];
  received_blocks_total = ℤ.pos 0;
  queued_blocks_total = ℤ.pos 0;
  sent_blocks_total = ℤ.pos 0;
  data_limit = 0;
  requires_finalization = false;
  responder_paused = false;
  initiator_paused = false;
  stages = some [];
}

module _ (g : Group) where
  -- The caches and the machines of `New`, over the machines that it is given.
  abbrev pub new_channels : g.Store → Channels g
  new_channels s = record {
    store = s;
    block_index_cache = new_block_index_cache;
    progress_cache = new_progress_cache;
  }

  -- `c.stateMachines.Send`
  unfoldable pub machine_send : ChannelId → EventCode → Args → Op g
  machine_send chid code args c =
      let (s, e) = g.send c.store chid code args in (record c { store = s }, e)

  unfoldable pub get_by_id : Channels g → ChannelId → Result ChannelState
  get_by_id c chid = elim (g.get_sync c.store chid) [ err e ↦ err (not_found chid) | ok ch ↦ ok ch ]

  unfoldable pub has_channel : Channels g → ChannelId → Result Bool
  has_channel c chid = g.has c.store chid

  unfoldable pub check_channel_exists : Channels g → ChannelId → EventCode → Option Err
  check_channel_exists c chid code = elim (g.has c.store chid) [
    | err e ↦ some e
    | ok has ↦ if has then none else some (wrapped "cannot send FSM event" (not_found chid))
  ]

  unfoldable pub send : ChannelId → EventCode → Args → Op g
  unfolding check_channel_exists machine_send
  send chid code args c = elim (check_channel_exists c chid code) [
    | some e ↦ (c, some e)
    | none ↦ machine_send chid code args c
  ]

  -- The result is the identifier only if there is no error; on an error of `Begin` it is the zero.
  unfoldable pub create_new :
      Peer
      → TransferId
      → Cid
      → Option Node
      → TypedVoucher
      → Peer
      → Peer
      → Peer
      → Channels g
      → Channels g × ChannelId × Option Err
  create_new self_peer tid base_cid selector voucher initiator data_sender data_receiver c =
      let ch : ChannelState =
        new_state self_peer tid base_cid selector voucher initiator data_sender data_receiver in
      let chid : ChannelId = record { initiator = initiator; responder = ch.responder; id = tid } in
      let (s, e) = g.begin c.store chid ch in
      elim e [
        | some x ↦ (record c { store = s }, record { initiator = 0; responder = 0; id = 0 }, some x)
        | none ↦
            let (s', e') = g.send s chid open_channel nothing in (record c { store = s' }, chid, e')
      ]

  -- The map of the listed channels, in the order of the list; a later entry of a key wins.
  unfoldable pub in_progress : Channels g → Result (List (ChannelId × ChannelState))
  in_progress c = elim (g.list c.store) [
    | err e ↦ err e
    | ok chs ↦ ok (
        map
          (λ ch. (
            record { initiator = ch.initiator; responder = ch.responder; id = ch.transfer_id },
            ch,
          ))
          chs)
  ]

  abbrev ignore_terminated : Option Err → Option Err
  ignore_terminated none = none
  ignore_terminated (some e) = if is_terminated e then none else some e

  unfoldable pub cancel : ChannelId → Op g
  cancel chid c = let (c', e) = send chid EventCode.cancel nothing c in (c', ignore_terminated e)

  unfoldable pub set_data_limit : ChannelId → ℕ → Op g
  set_data_limit chid data_limit c =
      send chid EventCode.set_data_limit (some_bytes data_limit)
        (record c { progress_cache = cache_data_limit c.progress_cache chid data_limit })
