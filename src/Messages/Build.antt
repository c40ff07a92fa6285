-- ===== src/Messages/Build.antt =====
-- message/message1_1prime/message.go: the functions that make the messages. `null` is `ipld.Null`.
use go_data_transfer.Base.{Bool, true, false, ◌&&◌, ◌==◌, Option, none, some, if◌then◌else◌}
use go_data_transfer.Types.{Node, Cid, TransferId, TypedVoucher, ChannelId, empty_type_identifier}
use go_data_transfer.Errors.{Err, other, Result, ok, err}
use go_data_transfer.Validation.{ValidationResult}
use go_data_transfer.Messages.{
  MessageType, message_code, new_message, update_message, cancel_message, complete_message,
  voucher_message, voucher_result_message, restart_message,
  restart_existing_channel_request_message, undef, no_channel, or_empty,
}
use go_data_transfer.Messages.Request.{TransferRequest}
use go_data_transfer.Messages.Response.{TransferResponse}

-- The zero value of the struct, of the given type.
abbrev zero_request : MessageType → TransferRequest
zero_request t = record {
  base_cid_ptr = none;
  message_type = message_code t;
  pause = false;
  partial = false;
  pull = false;
  selector_ptr = none;
  voucher_ptr = none;
  voucher_type_identifier = empty_type_identifier;
  transfer_id = 0;
  restart_channel = no_channel;
}

-- The struct that `NewRequest` returns.
abbrev pub filled_request :
    TransferId → Bool → Bool → TypedVoucher → Cid → Option Node → TransferRequest
filled_request id is_restart is_pull v base_cid selector =
    record (zero_request (if is_restart then restart_message else new_message)) {
      pull = is_pull;
      voucher_ptr = v.voucher;
      selector_ptr = selector;
      base_cid_ptr = some base_cid;
      voucher_type_identifier = v.type_id;
      transfer_id = id;
    }

abbrev pub new_request :
    Node
    → TransferId
    → Bool
    → Bool
    → Option TypedVoucher
    → Cid
    → Option Node
    → Result TransferRequest
new_request null id is_restart is_pull voucher base_cid selector =
    if base_cid == undef
    then err (other "base CID must be defined")
    else ok (filled_request id is_restart is_pull (or_empty null voucher) base_cid selector)

abbrev pub restart_existing_channel_request : ChannelId → TransferRequest
restart_existing_channel_request channel_id =
    record (zero_request restart_existing_channel_request_message) { restart_channel = channel_id }

abbrev pub cancel_request : TransferId → TransferRequest
cancel_request id = record (zero_request cancel_message) { transfer_id = id }

abbrev pub update_request : TransferId → Bool → TransferRequest
update_request id is_paused = record (zero_request update_message) {
  pause = is_paused;
  transfer_id = id;
}

abbrev pub voucher_request : Node → TransferId → Option TypedVoucher → TransferRequest
voucher_request null id voucher =
    let v : TypedVoucher = or_empty null voucher in
    record (zero_request voucher_message) {
      voucher_ptr = v.voucher;
      voucher_type_identifier = v.type_id;
      transfer_id = id;
    }

-- The struct that the functions for responses with a voucher result fill, of the given type.
abbrev voucher_response :
    Node → MessageType → TransferId → Bool → Bool → Option TypedVoucher → TransferResponse
voucher_response null t id accepted is_paused voucher_result =
    let v : TypedVoucher = or_empty null voucher_result in
    record {
      message_type = message_code t;
      request_accepted = accepted;
      paused = is_paused;
      transfer_id = id;
      voucher_result_ptr = v.voucher;
      voucher_type_identifier = v.type_id;
    }

abbrev pub restart_response :
    Node → TransferId → Bool → Bool → Option TypedVoucher → TransferResponse
restart_response null = voucher_response null restart_message

abbrev pub new_response : Node → TransferId → Bool → Bool → Option TypedVoucher → TransferResponse
new_response null = voucher_response null new_message

abbrev pub voucher_result_response :
    Node → TransferId → Bool → Bool → Option TypedVoucher → TransferResponse
voucher_result_response null = voucher_response null voucher_result_message

abbrev pub complete_response :
    Node → TransferId → Bool → Bool → Option TypedVoucher → TransferResponse
complete_response null = voucher_response null complete_message

abbrev no_error : Option Err → Bool
no_error none = true
no_error (some e) = false

abbrev pub validation_result_response :
    Node → MessageType → TransferId → ValidationResult → Option Err → Bool → TransferResponse
validation_result_response null t id validation_result validation_err is_paused =
    voucher_response null t id (no_error validation_err && validation_result.accepted) is_paused
      validation_result.voucher_result

-- The struct that the functions for responses without one fill.
abbrev plain_response : MessageType → TransferId → Bool → TransferResponse
plain_response t id is_paused = record {
  message_type = message_code t;
  request_accepted = false;
  paused = is_paused;
  transfer_id = id;
  voucher_result_ptr = none;
  voucher_type_identifier = empty_type_identifier;
}

abbrev pub update_response : TransferId → Bool → TransferResponse
update_response id is_paused = plain_response update_message id is_paused

abbrev pub cancel_response : TransferId → TransferResponse
cancel_response id = plain_response cancel_message id false
