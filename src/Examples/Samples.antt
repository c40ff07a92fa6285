-- ===== src/Examples/Samples.antt =====
-- The data of the examples: a push from peer 1 to peer 2, seen by the responder.
use go_data_transfer.Base.{ℤ, [], ◌∷◌, none, some, false, if◌then◌else◌}
use go_data_transfer.Statuses.{Status, ongoing}
use go_data_transfer.Types.{ChannelId, channel_id_eq}
use go_data_transfer.Channels.Internal.{ChannelState}
use go_data_transfer.Channels.Caches.{new_block_index_cache, new_progress_cache}
use go_data_transfer.Channels.Group.Stored.{Memory, memory_group}
use go_data_transfer.Channels.Ops.{Channels}

abbrev pub sample_in : Status → ChannelState
sample_in s = record {
  self_peer = 2;
  transfer_id = 7;
  initiator = 1;
  responder = 2;
  base_cid = 40;
  selector = none;
  sender = 1;
  recipient = 2;
  total_size = 0;
  status = s;
  queued = 0;
  sent = 0;
  received = 10;
  message = "";
  vouchers = record { type_id = "V"; voucher = some 5 } ∷ [];
  voucher_results = [];
  received_blocks_total = ℤ.pos 1;
  queued_blocks_total = ℤ.pos 0;
  sent_blocks_total = ℤ.pos 0;
  data_limit = 15;
  requires_finalization = false;
  responder_paused = false;
  initiator_paused = false;
  stages = some [];
}

abbrev pub sample : ChannelState
sample = sample_in ongoing

abbrev pub sample_id : ChannelId
sample_id = record { initiator = 1; responder = 2; id = 7 }

abbrev pub sample_store : Memory
sample_store = record {
  time = 100;
  channels = λ c. if channel_id_eq sample_id c then some sample else none;
}

abbrev pub sample_channels : Channels memory_group
sample_channels = record {
  store = sample_store;
  block_index_cache = new_block_index_cache;
  progress_cache = new_progress_cache;
}
