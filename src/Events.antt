-- ===== src/Events.antt =====
-- events.go: the event codes, in the order of the source.
use go_data_transfer.Base.{ℕ, Bool, ◌==◌}

pub data EventCode : Type 0 where
  open_channel accept restart data_received data_sent cancel error cleanup_complete : EventCode
  new_voucher new_voucher_result pause_initiator resume_initiator pause_responder : EventCode
  resume_responder finish_transfer responder_completes responder_begins_finalization : EventCode
  begin_finalizing disconnected complete complete_cleanup_on_restart data_queued : EventCode
  data_queued_progress data_sent_progress data_received_progress request_timed_out : EventCode
  send_data_error receive_data_error transfer_request_queued request_cancelled opened : EventCode
  set_data_limit set_requires_finalization data_limit_exceeded transfer_initiated : EventCode
  send_message_error : EventCode

-- The value that `iota` gives each constant.
abbrev pub event_code : EventCode → ℕ
event_code open_channel = 0
event_code accept = 1
event_code restart = 2
event_code data_received = 3
event_code data_sent = 4
event_code cancel = 5
event_code error = 6
event_code cleanup_complete = 7
event_code new_voucher = 8
event_code new_voucher_result = 9
event_code pause_initiator = 10
event_code resume_initiator = 11
event_code pause_responder = 12
event_code resume_responder = 13
event_code finish_transfer = 14
event_code responder_completes = 15
event_code responder_begins_finalization = 16
event_code begin_finalizing = 17
event_code disconnected = 18
event_code complete = 19
event_code complete_cleanup_on_restart = 20
event_code data_queued = 21
event_code data_queued_progress = 22
event_code data_sent_progress = 23
event_code data_received_progress = 24
event_code request_timed_out = 25
event_code send_data_error = 26
event_code receive_data_error = 27
event_code transfer_request_queued = 28
event_code request_cancelled = 29
event_code opened = 30
event_code set_data_limit = 31
event_code set_requires_finalization = 32
event_code data_limit_exceeded = 33
event_code transfer_initiated = 34
event_code send_message_error = 35

abbrev pub event_eq : EventCode → EventCode → Bool
event_eq a b = event_code a == event_code b
