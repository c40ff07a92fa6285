-- ===== src/Messages.antt =====
-- message/types/message_types.go, and what the messages of message/message1_1prime share.
pub mod Request
pub mod Response
pub mod Build
pub mod Wire
use go_data_transfer.Base.{ℕ, Option, some, none, Bool, ◌==◌}
use go_data_transfer.Types.{Node, Cid, TypedVoucher, ChannelId, empty_type_identifier}

pub data MessageType : Type 0 where
  new_message update_message cancel_message complete_message voucher_message : MessageType
  voucher_result_message restart_message restart_existing_channel_request_message : MessageType

abbrev pub message_code : MessageType → ℕ
message_code new_message = 0
message_code update_message = 1
message_code cancel_message = 2
message_code complete_message = 3
message_code voucher_message = 4
message_code voucher_result_message = 5
message_code restart_message = 6
message_code restart_existing_channel_request_message = 7

-- `cid.Undef`
abbrev pub undef : Cid
undef = 0

-- The zero value of the struct.
abbrev pub no_channel : ChannelId
no_channel = record { initiator = 0; responder = 0; id = 0 }

-- `ipld.Null` is the parameter.
abbrev pub empty_typed_voucher : Node → TypedVoucher
empty_typed_voucher null = record { voucher = some null; type_id = empty_type_identifier }

-- `if voucher == nil { voucher = &emptyTypedVoucher }`
abbrev pub or_empty : Node → Option TypedVoucher → TypedVoucher
or_empty null none = empty_typed_voucher null
or_empty null (some v) = v
