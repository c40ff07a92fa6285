-- ===== src/Messages/Response.antt =====
-- message/message1_1prime/transfer_response.go: the response and its accessors.
use go_data_transfer.Base.{ℕ, Bool, ◌||◌, ◌==◌, Option, none, some, str_eq}
use go_data_transfer.Types.{Node, TransferId, TypeIdentifier, empty_type_identifier}
use go_data_transfer.Errors.{other, Result, ok, err}
use go_data_transfer.Messages.{
  message_code, new_message, update_message, cancel_message, complete_message,
  voucher_result_message, restart_message,
}

pub record TransferResponse : Type 0 where
  pub message_type : ℕ
  pub request_accepted : Bool
  pub paused : Bool
  pub transfer_id : TransferId
  pub voucher_result_ptr : Option Node
  pub voucher_type_identifier : TypeIdentifier

abbrev pub is_new : TransferResponse → Bool
is_new trsp = trsp.message_type == message_code new_message

abbrev pub is_update : TransferResponse → Bool
is_update trsp = trsp.message_type == message_code update_message

abbrev pub is_cancel : TransferResponse → Bool
is_cancel trsp = trsp.message_type == message_code cancel_message

abbrev pub is_complete : TransferResponse → Bool
is_complete trsp = trsp.message_type == message_code complete_message

abbrev pub is_validation_result : TransferResponse → Bool
is_validation_result trsp =
    trsp.message_type == message_code voucher_result_message
    || trsp.message_type == message_code new_message
    || trsp.message_type == message_code complete_message
    || trsp.message_type == message_code restart_message

abbrev pub voucher_result : TransferResponse → Result Node
voucher_result trsp = elim trsp.voucher_result_ptr [
  | none ↦ err (other "No voucher present to read")
  | some n ↦ ok n
]

abbrev pub is_restart : TransferResponse → Bool
is_restart trsp = trsp.message_type == message_code restart_message

abbrev pub empty_voucher_result : TransferResponse → Bool
empty_voucher_result trsp = str_eq trsp.voucher_type_identifier empty_type_identifier
