-- ===== src/Channels/Fsm/Events.antt =====
-- `ChannelEvents` of channels/channels_fsm.go, in the order of the source.
use go_data_transfer.Base.{List, [], ◌∷◌}
use go_data_transfer.Channels.Fsm.Table.{EventDesc}
use go_data_transfer.Channels.Fsm.Progress.{
  data_received_event, data_received_progress_event, data_sent_event, data_sent_progress_event,
  data_queued_event, data_queued_progress_event,
}
use go_data_transfer.Channels.Fsm.Settings.{
  set_data_limit_event, set_requires_finalization_event, disconnected_event, send_data_error_event,
  receive_data_error_event, request_cancelled_event, error_event, new_voucher_event,
  new_voucher_result_event,
}
use go_data_transfer.Channels.Fsm.Pausing.{
  pause_initiator_event, pause_responder_event, data_limit_exceeded_event, resume_initiator_event,
  resume_responder_event,
}
use go_data_transfer.Channels.Fsm.Lifecycle.{
  open_channel_event, accept_event, transfer_initiated_event, restart_event, cancel_event,
  opened_event, finish_transfer_event, responder_begins_finalization_event,
  responder_completes_event, begin_finalizing_event, complete_event, cleanup_complete_event,
  complete_cleanup_on_restart_event,
}

abbrev pub channel_events : List EventDesc
channel_events =
    open_channel_event ∷ accept_event ∷ transfer_initiated_event ∷ restart_event ∷ cancel_event
    ∷ opened_event ∷ data_received_event ∷ data_received_progress_event ∷ data_sent_event
    ∷ data_sent_progress_event ∷ data_queued_event ∷ data_queued_progress_event
    ∷ set_data_limit_event ∷ set_requires_finalization_event ∷ disconnected_event
    ∷ send_data_error_event ∷ receive_data_error_event ∷ request_cancelled_event ∷ error_event
    ∷ new_voucher_event ∷ new_voucher_result_event ∷ pause_initiator_event ∷ pause_responder_event
    ∷ data_limit_exceeded_event ∷ resume_initiator_event ∷ resume_responder_event
    ∷ finish_transfer_event ∷ responder_begins_finalization_event ∷ responder_completes_event
    ∷ begin_finalizing_event ∷ complete_event ∷ cleanup_complete_event
    ∷ complete_cleanup_on_restart_event ∷ []
