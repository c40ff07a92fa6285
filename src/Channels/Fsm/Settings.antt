-- ===== src/Channels/Fsm/Settings.antt =====
-- The events of channels/channels_fsm.go that set a limit, a flag, a message or a voucher.
use go_data_transfer.Base.{[], ◌∷◌, ◌++◌, str_append}
use go_data_transfer.Statuses.{failing}
use go_data_transfer.Events.{EventCode}
use go_data_transfer.Channels.Internal.{add_log}
use go_data_transfer.Channels.Fsm.Table.{
  EventDesc, from_any, to, no_change, just_record, with_bytes, with_flag, with_error, with_voucher,
}

abbrev pub set_data_limit_event : EventDesc
set_data_limit_event = record {
  code = EventCode.set_data_limit;
  transitions = (from_any, just_record) ∷ [];
  action = with_bytes (λ data_limit now ch. add_log now "" (record ch { data_limit = data_limit }));
}

abbrev pub set_requires_finalization_event : EventDesc
set_requires_finalization_event = record {
  code = EventCode.set_requires_finalization;
  transitions = (from_any, just_record) ∷ [];
  action = with_flag (λ requires_finalization now ch.
      add_log now "" (record ch { requires_finalization = requires_finalization }));
}

abbrev pub disconnected_event : EventDesc
disconnected_event = record {
  code = EventCode.disconnected;
  transitions = (from_any, no_change) ∷ [];
  action = with_error (λ message now ch.
      add_log now (str_append "data transfer disconnected: " message)
        (record ch { message = message }));
}

abbrev pub send_data_error_event : EventDesc
send_data_error_event = record {
  code = EventCode.send_data_error;
  transitions = (from_any, no_change) ∷ [];
  action = with_error (λ message now ch.
      add_log now (str_append "data transfer send error: " message)
        (record ch { message = message }));
}

abbrev pub receive_data_error_event : EventDesc
receive_data_error_event = record {
  code = EventCode.receive_data_error;
  transitions = (from_any, no_change) ∷ [];
  action = with_error (λ message now ch.
      add_log now (str_append "data transfer receive error: " message)
        (record ch { message = message }));
}

abbrev pub request_cancelled_event : EventDesc
request_cancelled_event = record {
  code = EventCode.request_cancelled;
  transitions = (from_any, no_change) ∷ [];
  action = with_error (λ message now ch.
      add_log now (str_append "data transfer request cancelled: " message)
        (record ch { message = message }));
}

abbrev pub error_event : EventDesc
error_event = record {
  code = EventCode.error;
  transitions = (from_any, to failing) ∷ [];
  action = with_error (λ message now ch.
      add_log now (str_append "data transfer erred: " message) (record ch { message = message }));
}

abbrev pub new_voucher_event : EventDesc
new_voucher_event = record {
  code = EventCode.new_voucher;
  transitions = (from_any, no_change) ∷ [];
  action = with_voucher (λ voucher now ch. add_log now "got new voucher" (record ch {
    vouchers = ch.vouchers ++ record { type_id = voucher.type_id; voucher = voucher.voucher } ∷ [];
  }));
}

abbrev pub new_voucher_result_event : EventDesc
new_voucher_result_event = record {
  code = EventCode.new_voucher_result;
  transitions = (from_any, no_change) ∷ [];
  action = with_voucher (λ voucher_result now ch. add_log now "got new voucher result" (record ch {
    voucher_results =
        ch.voucher_results
        ++ record { type_id = voucher_result.type_id; voucher_result = voucher_result.voucher }
          ∷ [];
  }));
}
