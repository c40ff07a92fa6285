-- ===== src/Messages/Request.antt =====
-- message/message1_1prime/transfer_request.go: the request and its accessors. A message type is the
-- number on the wire.
use go_data_transfer.Base.{ℕ, Bool, not, ◌||◌, ◌==◌, Option, none, some, str_eq, if◌then◌else◌}
use go_data_transfer.Types.{
  Node, Cid, TransferId, TypeIdentifier, TypedVoucher, ChannelId, empty_type_identifier,
}
use go_data_transfer.Errors.{other, Result, ok, err}
use go_data_transfer.Messages.{
  message_code, new_message, update_message, cancel_message, voucher_message, restart_message,
  restart_existing_channel_request_message, undef,
}

pub record TransferRequest : Type 0 where
  pub base_cid_ptr : Option Cid
  pub message_type : ℕ
  pub pause : Bool
  pub partial : Bool
  pub pull : Bool
  pub selector_ptr : Option Node
  pub voucher_ptr : Option Node
  pub voucher_type_identifier : TypeIdentifier
  pub transfer_id : TransferId
  pub restart_channel : ChannelId

abbrev pub is_restart : TransferRequest → Bool
is_restart trq = trq.message_type == message_code restart_message

abbrev pub is_restart_existing_channel_request : TransferRequest → Bool
is_restart_existing_channel_request trq =
    trq.message_type == message_code restart_existing_channel_request_message

abbrev pub restart_channel_id : TransferRequest → Result ChannelId
restart_channel_id trq =
    if not (is_restart_existing_channel_request trq)
    then err (other "not a restart request")
    else ok trq.restart_channel

abbrev pub is_new : TransferRequest → Bool
is_new trq = trq.message_type == message_code new_message

abbrev pub is_update : TransferRequest → Bool
is_update trq = trq.message_type == message_code update_message

abbrev pub is_voucher : TransferRequest → Bool
is_voucher trq =
    trq.message_type == message_code voucher_message || trq.message_type == message_code new_message

abbrev pub voucher : TransferRequest → Result Node
voucher trq = elim trq.voucher_ptr [
  | none ↦ err (other "No voucher present to read")
  | some n ↦ ok n
]

abbrev pub typed_voucher : TransferRequest → Result TypedVoucher
typed_voucher trq = elim (voucher trq) [
  | err e ↦ err e
  | ok n ↦ ok (record { voucher = some n; type_id = trq.voucher_type_identifier })
]

abbrev pub empty_voucher : TransferRequest → Bool
empty_voucher trq = str_eq trq.voucher_type_identifier empty_type_identifier

abbrev pub base_cid : TransferRequest → Cid
base_cid trq = elim trq.base_cid_ptr [ none ↦ undef | some c ↦ c ]

abbrev pub selector : TransferRequest → Result Node
selector trq = elim trq.selector_ptr [
  | none ↦ err (other "No selector present to read")
  | some n ↦ ok n
]

abbrev pub is_cancel : TransferRequest → Bool
is_cancel trq = trq.message_type == message_code cancel_message
