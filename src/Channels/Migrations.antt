-- ===== src/Channels/Migrations.antt =====
-- channels/internal/migrations/migrations.go: the stored state of version 2, in which a pause is a
-- status, and its migration to the state of channels/internal. The list of the migrations is only
-- handed to go-ds-versioning, and the CBOR methods are generated.
pub mod Kept
use go_data_transfer.Base.{ℕ, ℤ, Bool, ◌||◌, List, Option, String, if◌then◌else◌}
use go_data_transfer.Statuses.{
  Status, status_eq, ongoing, initiator_paused, responder_paused, both_paused,
}
use go_data_transfer.Types.{Peer, Cid, Node, TransferId, ChannelStages}
use go_data_transfer.Errors.{Result, ok}
use go_data_transfer.Channels.Internal.{ChannelState, EncodedVoucher, EncodedVoucherResult}

pub record ChannelStateV2 : Type 0 where
  pub self_peer : Peer
  pub transfer_id : TransferId
  pub initiator : Peer
  pub responder : Peer
  pub base_cid : Cid
  pub selector : Option Node
  pub sender : Peer
  pub recipient : Peer
  pub total_size : ℕ
  pub status : Status
  pub queued : ℕ
  pub sent : ℕ
  pub received : ℕ
  pub message : String
  pub vouchers : List EncodedVoucher
  pub voucher_results : List EncodedVoucherResult
  pub received_blocks_total : ℤ
  pub queued_blocks_total : ℤ
  pub sent_blocks_total : ℤ
  pub data_limit : ℕ
  pub requires_finalization : Bool
  pub stages : Option ChannelStages

abbrev pub no_op_channel_state_0_to_2 : ChannelStateV2 → Result ChannelStateV2
no_op_channel_state_0_to_2 old_channel_state = ok old_channel_state

abbrev pub new_status : Status → Status
new_status s =
    if status_eq s responder_paused || status_eq s initiator_paused || status_eq s both_paused
    then ongoing
    else s

unfoldable pub migrate_channel_state_2_to_3 : ChannelStateV2 → Result ChannelState
migrate_channel_state_2_to_3 old = ok (record {
  self_peer = old.self_peer;
  transfer_id = old.transfer_id;
  initiator = old.initiator;
  responder = old.responder;
  base_cid = old.base_cid;
  selector = old.selector;
  sender = old.sender;
  recipient = old.recipient;
  total_size = old.total_size;
  status = new_status old.status;
  queued = old.queued;
  sent = old.sent;
  received = old.received;
  message = old.message;
  vouchers = old.vouchers;
  voucher_results = old.voucher_results;
  received_blocks_total = old.received_blocks_total;
  queued_blocks_total = old.queued_blocks_total;
  sent_blocks_total = old.sent_blocks_total;
  data_limit = old.data_limit;
  requires_finalization = old.requires_finalization;
  responder_paused = status_eq old.status responder_paused || status_eq old.status both_paused;
  initiator_paused = status_eq old.status initiator_paused || status_eq old.status both_paused;
  stages = old.stages;
})
