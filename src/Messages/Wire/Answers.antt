-- ===== src/Messages/Wire/Answers.antt =====
-- A response that one peer makes is the response that the other peer reads.
use go_data_transfer.Base.{◌≡◌, ◌↔◌, arith, refl, Bool, true, false, Option, none}
use go_data_transfer.Errors.{Err, ok}
use go_data_transfer.Types.{Node, TransferId}
use go_data_transfer.Validation.{ValidationResult}
use go_data_transfer.Messages.{
  MessageType, or_empty, new_message, restart_message, complete_message, voucher_result_message,
}
use go_data_transfer.Messages.Response.{TransferResponse, is_validation_result, voucher_result}
use go_data_transfer.Messages.Build.{validation_result_response}
use go_data_transfer.Messages.Wire.{Codec, a_response, nullable, to_ipld, from_ipld}
use go_data_transfer.Messages.Wire.RoundTrip.{
  node_read, type_read, node_read-or_empty, type_read-or_empty,
}

-- The message types that `ValidationResultResponse` is called with.
abbrev pub carries_result : MessageType → Bool
carries_result new_message = true
carries_result restart_message = true
carries_result complete_message = true
carries_result voucher_result_message = true
carries_result _ = false

-- What the reader of a response to a validation finds in it.
pub record Answers (null : Node) (id : TransferId) (vr : ValidationResult) (e : Option Err)
    (paused : Bool) (r : TransferResponse) : Type 0 where
  pub id_as_made : r.transfer_id ≡ id
  pub is_result : is_validation_result r ≡ true
  pub result_as_made : voucher_result r ≡ node_read null vr.voucher_result
  pub type_as_made : r.voucher_type_identifier ≡ type_read vr.voucher_result
  pub pause_as_made : r.paused ≡ paused
  pub accepts : (r.request_accepted ≡ true) ↔ ((e ≡ none) × (vr.accepted ≡ true))

-- The response to a validation, of any type that carries one, is read from the wire as a validation
-- result, with the transfer ID, the pause flag, and the type and the node of the voucher result. A
-- voucher result that was left out, or is nil or null, is an error to its reader, as none is there;
-- one left out has the empty type. The response accepts just if there was no error and the validator
-- accepted.
pub validation_result_response-from_ipld :
    (k : Codec) (t : MessageType) (id : TransferId) (vr : ValidationResult) (e : Option Err)
    (paused : Bool)
    → carries_result t ≡ true
    → (r : TransferResponse) × (from_ipld k
          (to_ipld k (a_response (validation_result_response k.null t id vr e paused)))
        ≡ ok (a_response r))
      × Answers k.null id vr e paused r
validation_result_response-from_ipld k t id vr e paused carries =
    let r : TransferResponse = validation_result_response k.null t id vr e paused in
    (
      record r { voucher_result_ptr = nullable k.null (or_empty k.null vr.voucher_result).voucher },
      rw (k.from-to-response r, from_ipld) refl,
      record {
        id_as_made = refl;
        is_result = ground arith;
        result_as_made = node_read-or_empty k.null vr.voucher_result;
        type_as_made = type_read-or_empty k.null vr.voucher_result;
        pause_as_made = refl;
        accepts = ground arith;
      },
    )
