-- ===== src/Channels/State/Parties.antt =====
-- Who is who on a channel, over its whole life.
use go_data_transfer.Base.{◌≡◌, ◌⊎◌, List, arith}
use go_data_transfer.Types.{other_party}
use go_data_transfer.Channels.Internal.{ChannelState}
use go_data_transfer.Channels.Fsm.Engine.{Engine}
use go_data_transfer.Channels.Fsm.Machine.{Input, run}
use go_data_transfer.Channels.Fsm.Machine.Identity.{SameTerms, run-SameTerms}
use go_data_transfer.Channels.Fsm.Machine.Cleanup.{id_of}
use go_data_transfer.Channels.State.{channel_id, other_peer}

-- The initiator and the responder are the sender and the recipient, one way or the other, and this
-- node is one of them.
pub record IsPaired (c : ChannelState) : Type 0 where
  pub roles :
      ((c.sender ≡ c.initiator) × (c.recipient ≡ c.responder))
      ⊎ ((c.sender ≡ c.responder) × (c.recipient ≡ c.initiator))
  pub self : (c.self_peer ≡ c.initiator) ⊎ (c.self_peer ≡ c.responder)

SameTerms-IsPaired : {a b : ChannelState} → SameTerms a b → IsPaired a → IsPaired b
SameTerms-IsPaired h k = ground arith

pub paired_views :
    (c : ChannelState)
    → IsPaired c
    → (channel_id c ≡ id_of c) × (other_peer c ≡ other_party (channel_id c) c.self_peer)
unfolding channel_id other_peer
paired_views c h = ground arith

-- Whatever events a channel takes, the channel ID that its view works out from the sender and the
-- recipient stays the one under which it was stored, and the peer that it takes for the other one is
-- the other party of that ID.
run_views :
    (m : Engine) (c : ChannelState) (is : List Input)
    → IsPaired c
    → (channel_id (run m c is) ≡ id_of c)
      × (other_peer (run m c is) ≡ other_party (id_of c) c.self_peer)
run_views m c is h =
    let same : SameTerms c (run m c is) = run-SameTerms m c is in
    let views : (channel_id (run m c is) ≡ id_of (run m c is))
        × (other_peer (run m c is) ≡ other_party (channel_id (run m c is)) (run m c is).self_peer) =
      paired_views (run m c is) (SameTerms-IsPaired same h) in
    ground arith
