-- ===== src/Messages/Wire.antt =====
-- message/message1_1prime: a message on its way between two peers. What go-ipld-prime makes of a
-- message, and reads back, is the record `Codec`; it reads back a message that it wrote, but for the
-- nodes that are null.
pub mod RoundTrip
pub mod Answers
use go_data_transfer.Base.{◌≡◌, Bool, true, false, Option, none, some, ◌==◌, if◌then◌else◌}
use go_data_transfer.Errors.{Result, ok, err, other}
use go_data_transfer.Types.{TransferId, Node, Cid}
use go_data_transfer.Messages.{undef}
use go_data_transfer.Messages.Request.{TransferRequest}
use go_data_transfer.Messages.Response.{TransferResponse}

pub record TransferMessage : Type 0 where
  pub is_request : Bool
  pub request : Option TransferRequest
  pub response : Option TransferResponse

-- `datatransfer.Message` is one of two things.
pub data Message : Type 0 where
  a_request : TransferRequest → Message
  a_response : TransferResponse → Message

-- `TransferID` of the message; a nil body, where Go panics, is none.
abbrev pub transfer_id : TransferMessage → Option TransferId
transfer_id tm =
    if tm.is_request
    then (elim tm.request [ none ↦ none | some r ↦ some r.transfer_id ])
    else elim tm.response [ none ↦ none | some r ↦ some r.transfer_id ]

-- The struct that `toIPLD` of a request and of a response makes.
abbrev pub enclose : Message → TransferMessage
enclose (a_request trq) = record { is_request = true; request = some trq; response = none }
enclose (a_response trsp) = record { is_request = false; request = none; response = some trsp }

-- What `FromIPLD` and `FromNet` do with the struct that is read.
abbrev pub open_message : TransferMessage → Result Message
open_message tresp =
    if tresp.is_request
    then (elim tresp.request [
      | none ↦ err (other "invalid/malformed message")
      | some r ↦ ok (a_request r)
    ])
    else elim tresp.response [
      | none ↦ err (other "invalid/malformed message")
      | some r ↦ ok (a_response r)
    ]

-- A field of the schema that is `nullable Any`: `ipld.Null` is read back as nil, which is also
-- written as it.
abbrev pub nullable : Node → Option Node → Option Node
nullable null none = none
nullable null (some n) = if n == null then none else some n

-- What is read of a message that was written.
abbrev pub as_read : Node → Message → Message
as_read null (a_request trq) = a_request (record trq {
  selector_ptr = nullable null trq.selector_ptr;
  voucher_ptr = nullable null trq.voucher_ptr;
})
as_read null (a_response trsp) =
    a_response (record trsp { voucher_result_ptr = nullable null trsp.voucher_result_ptr })

-- A CID that is not defined cannot be written.
pub record Codec : Type 1 where
  pub Wire : Type 0
  pub null : Node
  pub type_to_node : TransferMessage → Wire
  pub type_from_node : Wire → Result TransferMessage
  pub from-to-request :
      (r : TransferRequest) (c : Cid)
      → r.base_cid_ptr ≡ some c
      → (c == undef) ≡ false
      → type_from_node (type_to_node (enclose (a_request r)))
        ≡ ok (enclose (as_read null (a_request r)))
  pub from-to-response :
      (r : TransferResponse)
      → type_from_node (type_to_node (enclose (a_response r)))
        ≡ ok (enclose (as_read null (a_response r)))

abbrev pub to_ipld : (k : Codec) → Message → k.Wire
to_ipld k m = k.type_to_node (enclose m)

abbrev pub from_ipld : (k : Codec) → k.Wire → Result Message
from_ipld k node = elim (k.type_from_node node) [ err e ↦ err e | ok tresp ↦ open_message tresp ]
