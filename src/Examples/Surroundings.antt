-- ===== src/Examples/Surroundings.antt =====
-- Timelines, registries, validation results and messages at work.
use go_data_transfer.Network.{Stream, open_stream, protocol_data_transfer_1_2}
use go_data_transfer.Network.Opening.{Attempts, open_stream-Attempts}
use go_data_transfer.Base.{
  ltb, if◌then◌else◌, ℕ, ◌≡◌, ◌↔◌, refl, Bool, true, false, Option, none, some, [], ◌∷◌, ◌==◌,
  arith,
}
use go_data_transfer.Types.{Node, TypedVoucher}
use go_data_transfer.Types.{ChannelStage, get_stage, add_log, log_stages}
use go_data_transfer.Timeline.{Looked, get_stage-add_log}
use go_data_transfer.Timeline.Tidy.{all_tidy, all_tidy-log_stages}
use go_data_transfer.Errors.{Result, ok, err, other}
use go_data_transfer.Validation.{ValidationResult, equals}
use go_data_transfer.Validation.Equality.{equals_iff}
use go_data_transfer.Messages.{complete_message}
use go_data_transfer.Messages.Request.{TransferRequest}
use go_data_transfer.Messages.Response.{TransferResponse}
use go_data_transfer.Messages.Build.{new_request, validation_result_response}
use go_data_transfer.Messages.Wire.{
  Codec, TransferMessage, a_response, nullable, to_ipld, from_ipld,
}
use go_data_transfer.Messages.Wire.RoundTrip.{Arrives, new_request-Arrives}
use go_data_transfer.Messages.Wire.Answers.{Answers, validation_result_response-from_ipld}

abbrev old_stage : ChannelStage
old_stage = record {
  name = "Ongoing";
  description = "";
  created_time = 10;
  updated_time = 11;
  logs = record { log = "started"; updated_time = 11 } ∷ [];
}

get_stage-add_log_example :
    Looked 20 "Ongoing" "resumed" "Ongoing"
      (some (old_stage ∷ []))
      (get_stage (add_log 20 (some (old_stage ∷ [])) "Ongoing" "resumed") "Ongoing")
get_stage-add_log_example =
    get_stage-add_log 20 (some (old_stage ∷ [])) "Ongoing" "resumed" "Ongoing"

all_tidy-log_stages_example : all_tidy (log_stages 20 "Ongoing" "started" (old_stage ∷ [])) ≡ true
all_tidy-log_stages_example = all_tidy-log_stages 20 "Ongoing" "started" (old_stage ∷ []) refl

abbrev same_node : Option Node → Option Node → Bool
same_node none none = true
same_node (some a) (some b) = a == b
same_node _ _ = false

same_node_iff : (a b : Option Node) → (same_node a b ≡ true) ↔ (a ≡ b)
same_node_iff none none = (λ e. refl, λ e. refl)
same_node_iff none (some b) = (λ e. cc, λ e. cc)
same_node_iff (some a) none = (λ e. cc, λ e. cc)
same_node_iff (some a) (some b) = ground arith

abbrev granted : Option TypedVoucher → ValidationResult
granted v = record {
  accepted = true;
  voucher_result = v;
  force_pause = false;
  data_limit = 1000;
  requires_finalization = true;
}

abbrev receipt : TypedVoucher
receipt = record { voucher = some 8; type_id = "R" }

equals_iff_example :
    (equals same_node (granted none) (granted (some receipt)) ≡ true)
    ↔ (granted none ≡ granted (some receipt))
equals_iff_example = equals_iff same_node same_node_iff (granted none) (granted (some receipt))

abbrev request_read : Option TransferRequest → Option TransferRequest
request_read none = none
request_read (some r) =
    some (record r {
      selector_ptr = nullable 0 r.selector_ptr;
      voucher_ptr = nullable 0 r.voucher_ptr;
    })

abbrev response_read : Option TransferResponse → Option TransferResponse
response_read none = none
response_read (some r) = some (record r { voucher_result_ptr = nullable 0 r.voucher_result_ptr })

abbrev nulls_read : TransferMessage → TransferMessage
nulls_read m = record m { request = request_read m.request; response = response_read m.response }

-- A wire that carries the struct itself, but for the nodes that are null.
abbrev pub plain_codec : Codec
plain_codec = record {
  Wire = TransferMessage;
  null = 0;
  type_to_node = λ m. m;
  type_from_node = λ m. ok (nulls_read m);
  from-to-request = λ r c p q. refl;
  from-to-response = λ r. refl;
}

-- One with a voucher.
new_request-Arrives_example :
    Arrives plain_codec 7 false true
      (some receipt)
      40
      9
      (new_request 0 7 false true (some receipt) 40 (some 9))
new_request-Arrives_example =
    new_request-Arrives plain_codec 7 false true (some receipt) 40 9 refl refl

-- A completion without a voucher result.
validation_result_response-from_ipld_example :
    (r : TransferResponse) × (from_ipld plain_codec (
        to_ipld plain_codec
          (a_response (validation_result_response 0 complete_message 7 (granted none) none false)))
      ≡ ok (a_response r))
    × Answers 0 7 (granted none) none false r
validation_result_response-from_ipld_example =
    validation_result_response-from_ipld plain_codec complete_message 7 (granted none) none false
      refl

-- The host opens a stream in the third attempt.
abbrev third_time : ℕ → Result Stream
third_time n =
    if ltb n 2 then err (other "dial") else ok (record { protocol = protocol_data_transfer_1_2 })

open_stream-Attempts_example :
    (r : Result Stream) × (open_stream 5 5 third_time (λ n. none) 0 ≡ some r)
    × Attempts 5 third_time (λ n. none) 0 r
open_stream-Attempts_example = open_stream-Attempts 5 third_time (λ n. none) 4 0 refl
