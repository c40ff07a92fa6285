-- ===== src/Channels/Ops/Creation.antt =====
-- What `CreateNew` of channels/channels.go leaves in the store.
use go_data_transfer.Base.{
  ◌⊎◌, subst, arith, ◌==◌, if◌then◌else◌, sym, ◌≡◌, refl, ℕ, false, Option, none, some,
}
use go_data_transfer.Statuses.{requested}
use go_data_transfer.Events.{open_channel}
use go_data_transfer.Types.{Peer, Cid, Node, TransferId, TypedVoucher, ChannelId}
use go_data_transfer.Errors.{ok}
use go_data_transfer.Channels.Internal.{ChannelState, add_log}
use go_data_transfer.Channels.Fsm.Finality.{is_channel_cleaning_up}
use go_data_transfer.Channels.Fsm.Engine.{nothing, documented, run_action, land, apply_entry}
use go_data_transfer.Channels.Fsm.Machine.{effect}
use go_data_transfer.Channels.Fsm.Machine.Cleanup.{id_of}
use go_data_transfer.Channels.State.{channel_id, voucher}
use go_data_transfer.Channels.State.Parties.{IsPaired, paired_views}
use go_data_transfer.Channels.Group.{Group, next_state}
use go_data_transfer.Channels.Ops.{Channels, new_state, create_new, get_by_id}

-- What is stored for a fresh channel: an open one, with the peers and the terms that were given.
pub record Opens (chid : ChannelId) (self_peer sender recipient : Peer) (base_cid : Cid)
    (v : TypedVoucher) (ch : ChannelState) : Type 0 where
  pub opened : ch.status ≡ requested
  pub own_id : channel_id ch ≡ chid
  pub own_voucher : voucher ch ≡ v
  pub own_base : ch.base_cid ≡ base_cid
  pub own_sender : ch.sender ≡ sender
  pub own_recipient : ch.recipient ≡ recipient
  pub own_self : ch.self_peer ≡ self_peer
  pub paired : IsPaired ch

-- The event `Open` on a state that is requested.
opening : ℕ → ChannelState → ChannelState
opening now ch = record (add_log now "" ch) { status = requested }

next_state-open :
    (now : ℕ) (ch : ChannelState)
    → ch.status ≡ requested
    → next_state now open_channel nothing ch ≡ opening now ch
unfolding documented run_action land apply_entry opening
next_state-open now ch h = rw h refl

opening_calm :
    (now : ℕ) (ch : ChannelState) → is_channel_cleaning_up (opening now ch).status ≡ false
unfolding opening
opening_calm now ch = refl

effect_open :
    (now : ℕ) (ch : ChannelState) → effect open_channel nothing now ch ≡ some (add_log now "" ch)
unfolding effect run_action
effect_open now ch = refl

opening-Opens :
    (now : ℕ) (ch : ChannelState) (v : TypedVoucher)
    → IsPaired ch
    → voucher ch ≡ v
    → Opens (id_of ch) ch.self_peer ch.sender ch.recipient ch.base_cid v (opening now ch)
unfolding opening add_log
opening-Opens now ch v h e = record {
  opened = refl;
  own_id = (paired_views (opening now ch) paired).0;
  own_voucher = e;
  own_base = refl;
  own_sender = refl;
  own_recipient = refl;
  own_self = refl;
  paired = paired;
}
  where
    paired : IsPaired (opening now ch)
    paired = record { roles = h.roles; self = h.self }

stores_new :
    (g : Group) (self_peer : Peer) (tid : TransferId) (base_cid : Cid) (selector : Option Node)
    (v : TypedVoucher) (initiator data_sender data_receiver : Peer) (c : Channels g)
    → let ch = new_state self_peer tid base_cid selector v initiator data_sender data_receiver in
      IsPaired ch
      → g.has c.store (id_of ch) ≡ ok false
      → let r =
          create_new g self_peer tid base_cid selector v initiator data_sender data_receiver c in
        (r.1 ≡ id_of ch)
        × (r.2 ≡ none)
        × ((stored : ChannelState) × (get_by_id g r.0 (id_of ch) ≡ ok stored)
            × Opens (id_of ch) self_peer data_sender data_receiver base_cid v stored)
unfolding create_new get_by_id
stores_new g self_peer tid base_cid selector v initiator data_sender data_receiver c paired fresh =
    let ch : ChannelState =
      new_state self_peer tid base_cid selector v initiator data_sender data_receiver in
    let (got, done) = g.get_sync-begin c.store (id_of ch) ch fresh in
    let s : g.Store = (g.begin c.store (id_of ch) ch).0 in
    let accepted =
      g.send_accepts s (id_of ch) open_channel nothing ch (add_log (g.clock s) "" ch) got refl
        (effect_open (g.clock s) ch) in
    let opened = next_state-open (g.clock s) ch refl in
    let sent =
      g.get_sync-send s (id_of ch) open_channel nothing ch got refl
        (rw opened (opening_calm (g.clock s) ch)) in
    rw (done, create_new)
      (
        refl,
        accepted,
        (
          opening (g.clock s) ch,
          rw (sent, opened, get_by_id) refl,
          opening-Opens (g.clock s) ch v paired refl,
        ),
      )

responder_of :
    (initiator responder data_sender data_receiver : Peer)
    → ((data_sender ≡ initiator) × (data_receiver ≡ responder))
      ⊎ ((data_sender ≡ responder) × (data_receiver ≡ initiator))
    → (if data_sender == initiator then data_receiver else data_sender) ≡ responder
responder_of initiator responder data_sender data_receiver h = ground arith

-- A channel is created between an initiator and a responder, one of them the sender of the data and
-- the other the receiver, and one of them this node. If the ID that they and the transfer ID make is
-- not in use, then it is returned without an error, and a requested channel is found under it, with
-- the sender, the receiver, the base CID and the voucher that were given. The ID that the view of that
-- channel works out is the same.
pub create_new-Opens :
    (g : Group) (self_peer : Peer) (tid : TransferId) (base_cid : Cid) (selector : Option Node)
    (v : TypedVoucher) (initiator responder data_sender data_receiver : Peer) (c : Channels g)
    → ((data_sender ≡ initiator) × (data_receiver ≡ responder))
      ⊎ ((data_sender ≡ responder) × (data_receiver ≡ initiator))
    → (self_peer ≡ initiator) ⊎ (self_peer ≡ responder)
    → g.has c.store (record { initiator = initiator; responder = responder; id = tid }) ≡ ok false
    → let chid : ChannelId = record { initiator = initiator; responder = responder; id = tid } in
      let r =
        create_new g self_peer tid base_cid selector v initiator data_sender data_receiver c in
      (r.1 ≡ chid)
      × (r.2 ≡ none)
      × ((stored : ChannelState) × (get_by_id g r.0 chid ≡ ok stored)
          × Opens chid self_peer data_sender data_receiver base_cid v stored)
create_new-Opens g self_peer tid base_cid selector v initiator responder data_sender data_receiver c
      roles self fresh =
    let same = responder_of initiator responder data_sender data_receiver roles in
    let r = create_new g self_peer tid base_cid selector v initiator data_sender data_receiver c in
    let at : Peer → ChannelId = λ p. record { initiator = initiator; responder = p; id = tid } in
    subst
      (λ p.
        (r.1 ≡ at p)
        × (r.2 ≡ none)
        × ((stored : ChannelState) × (get_by_id g r.0 (at p) ≡ ok stored)
            × Opens (at p) self_peer data_sender data_receiver base_cid v stored))
      same
      (stores_new g self_peer tid base_cid selector v initiator data_sender data_receiver c
        (record { roles = rw same roles; self = rw same self })
        (subst (λ p. g.has c.store (at p) ≡ ok false) (sym same) fresh))
