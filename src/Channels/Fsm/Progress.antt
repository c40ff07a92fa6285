-- ===== src/Channels/Fsm/Progress.antt =====
-- The events of channels/channels_fsm.go that count blocks and bytes.
use go_data_transfer.Base.{[], ◌∷◌, ◌++◌}
use go_data_transfer.Statuses.{transfer_finished, transferring_states}
use go_data_transfer.Events.{EventCode}
use go_data_transfer.Channels.Internal.{add_log}
use go_data_transfer.Channels.Fsm.Table.{
  EventDesc, from, from_any, no_change, from_many, with_index, with_bytes, add_u64, raise_index,
}

abbrev pub data_received_event : EventDesc
data_received_event = record {
  code = EventCode.data_received;
  transitions = (from_any, no_change) ∷ [];
  action = with_index (λ rcvd_blocks_total now ch. add_log now "" (record ch {
    received_blocks_total = raise_index rcvd_blocks_total ch.received_blocks_total;
  }));
}

abbrev pub data_received_progress_event : EventDesc
data_received_progress_event = record {
  code = EventCode.data_received_progress;
  transitions = from_many transferring_states no_change;
  action = with_bytes (λ delta now ch.
      add_log now "received data" (record ch { received = add_u64 ch.received delta }));
}

abbrev pub data_sent_event : EventDesc
data_sent_event = record {
  code = EventCode.data_sent;
  transitions = from_many transferring_states no_change ++ (from transfer_finished, no_change) ∷ [];
  action = with_index (λ sent_blocks_total now ch.
      add_log now ""
        (record ch { sent_blocks_total = raise_index sent_blocks_total ch.sent_blocks_total }));
}

abbrev pub data_sent_progress_event : EventDesc
data_sent_progress_event = record {
  code = EventCode.data_sent_progress;
  transitions = from_many transferring_states no_change;
  action =
      with_bytes
        (λ delta now ch. add_log now "sending data" (record ch { sent = add_u64 ch.sent delta }));
}

abbrev pub data_queued_event : EventDesc
data_queued_event = record {
  code = EventCode.data_queued;
  transitions = from_many transferring_states no_change ++ (from transfer_finished, no_change) ∷ [];
  action = with_index (λ queued_blocks_total now ch.
      add_log now "" (record ch {
        queued_blocks_total = raise_index queued_blocks_total ch.queued_blocks_total;
      }));
}

abbrev pub data_queued_progress_event : EventDesc
data_queued_progress_event = record {
  code = EventCode.data_queued_progress;
  transitions = from_many transferring_states no_change;
  action =
      with_bytes (λ delta now ch. add_log now "" (record ch { queued = add_u64 ch.queued delta }));
}
