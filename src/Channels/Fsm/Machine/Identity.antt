-- ===== src/Channels/Fsm/Machine/Identity.antt =====
-- What no event of channels/channels_fsm.go changes.
use go_data_transfer.Base.{ℕ, ◌≡◌, some, arith, List, Bool}
use go_data_transfer.Events.{EventCode, open_channel}
use go_data_transfer.Channels.Internal.{ChannelState, add_log}
use go_data_transfer.Channels.Fsm.Table.{Target}
use go_data_transfer.Channels.Fsm.Engine.{Args, Engine, run_action, land}
use go_data_transfer.Channels.Fsm.Machine.{Input, Took, effect, effect-Took, run, run_rel}

-- The terms of the transfer, as the two parties agreed on them.
pub record SameTerms (a b : ChannelState) : Type 0 where
  pub self_peer : a.self_peer ≡ b.self_peer
  pub transfer_id : a.transfer_id ≡ b.transfer_id
  pub initiator : a.initiator ≡ b.initiator
  pub responder : a.responder ≡ b.responder
  pub base_cid : a.base_cid ≡ b.base_cid
  pub selector : a.selector ≡ b.selector
  pub sender : a.sender ≡ b.sender
  pub recipient : a.recipient ≡ b.recipient
  pub total_size : a.total_size ≡ b.total_size

SameTerms-refl : (a : ChannelState) → SameTerms a a
SameTerms-refl a = ground arith

pub SameTerms-trans : (a b c : ChannelState) → SameTerms a b → SameTerms b c → SameTerms a c
SameTerms-trans a b c h k = ground arith

pub effect-SameTerms :
    (e : EventCode) (a : Args) (now : ℕ) (ch ch' : ChannelState)
    → effect e a now ch ≡ some ch'
    → SameTerms ch ch'
unfolding effect run_action add_log
effect-SameTerms open_channel a now ch ch' h = ground arith
effect-SameTerms _ a now ch ch' h = ground arith

pub land-SameTerms : (t : Target) (ch : ChannelState) → SameTerms ch (land t ch).0
unfolding land
land-SameTerms t ch = ground arith

Took-SameTerms :
    (ch : ChannelState) (i : Input) (r : ChannelState × Bool) → Took ch i r → SameTerms ch r.0
Took-SameTerms ch i r k = rw k.landed (
    SameTerms-trans ch k.acted (land k.target k.acted).0
      (effect-SameTerms i.code i.args i.now ch k.acted (effect-Took k))
      (land-SameTerms k.target k.acted))

-- No sequence of events changes the terms of a transfer: its peers, its ID, its base CID, its
-- selector and its size.
pub run-SameTerms : (m : Engine) (ch : ChannelState) (is : List Input) → SameTerms ch (run m ch is)
run-SameTerms m = run_rel SameTerms SameTerms-refl SameTerms-trans Took-SameTerms m
