-- ===== src/Channels/Internal.antt =====
-- channels/internal/internalchannel.go: the stored state of a channel. `CborGenCompatibleNode` is a
-- struct of one node; its CBOR methods are left out, and the node stands for it.
use go_data_transfer.Base.{ℕ, ℤ, Bool, List, Option, String}
use go_data_transfer.Statuses.{Status, statuses}
use go_data_transfer.Types.{
  Peer, Cid, Node, TransferId, TypeIdentifier, ChannelStages, add_log as add_log_stages,
}

pub record EncodedVoucher : Type 0 where
  pub type_id : TypeIdentifier
  pub voucher : Option Node

pub record EncodedVoucherResult : Type 0 where
  pub type_id : TypeIdentifier
  pub voucher_result : Option Node

pub record ChannelState : Type 0 where
  pub self_peer : Peer
  pub transfer_id : TransferId
  pub initiator : Peer
  pub responder : Peer
  pub base_cid : Cid
  pub selector : Option Node
  pub sender : Peer
  pub recipient : Peer
  pub total_size : ℕ
  pub status : Status
  -- uint64, as the two below
  pub queued : ℕ
  pub sent : ℕ
  pub received : ℕ
  pub message : String
  pub vouchers : List EncodedVoucher
  pub voucher_results : List EncodedVoucherResult
  -- int64, as the two below
  pub received_blocks_total : ℤ
  pub queued_blocks_total : ℤ
  pub sent_blocks_total : ℤ
  -- uint64
  pub data_limit : ℕ
  pub requires_finalization : Bool
  pub responder_paused : Bool
  pub initiator_paused : Bool
  -- a pointer, that may be nil
  pub stages : Option ChannelStages

-- `AddLog` with the message that `fmt.Sprintf` has made; the stage is the name of the status.
unfoldable pub add_log : ℕ → String → ChannelState → ChannelState
add_log now msg cs = record cs { stages = add_log_stages now cs.stages (statuses cs.status) msg }
