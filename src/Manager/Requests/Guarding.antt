-- ===== src/Manager/Requests/Guarding.antt =====
-- What a new request or a restart request must pass before impl/receiving_requests.go acts on it.
use go_data_transfer.Base.{
  Bool, true, false, ◌≡◌, refl, ◌⊎◌, inl, inr, Option, none, some, Option-cases, Bool-cases,
  if◌then◌else◌,
}
use go_data_transfer.Types.{Node, TransferId, ChannelId, TypedVoucher}
use go_data_transfer.Errors.{Err, ok, other, rejected, Result-cases}
use go_data_transfer.Channels.Group.{Group}
use go_data_transfer.Registry.{processor}
use go_data_transfer.Validation.{ValidationResult}
use go_data_transfer.Messages.{MessageType, new_message}
use go_data_transfer.Messages.Request
use go_data_transfer.Messages.Request.{TransferRequest}
use go_data_transfer.Messages.Response.{TransferResponse}
use go_data_transfer.Messages.Build.{validation_result_response}
use go_data_transfer.Manager.World.{Setup, Validator, Manager, done}
use go_data_transfer.Manager.Rules.{Ends, Ends-bind}
use go_data_transfer.Manager.Outcomes.{request_error}
use go_data_transfer.Manager.Requests.{accept_request, receive_new_request}

-- An outcome that is an error, or a result that does not accept.
abbrev pub Negative : ValidationResult → Option Err → Type 0
Negative result e = ((x : Err) × (e ≡ some x)) ⊎ ((e ≡ none) × (result.accepted ≡ false))

-- The response does not accept, and the transport is given an error.
abbrev pub TurnedDown : Option TransferResponse × Option Err → Type 0
TurnedDown (response, e) =
    ((r : TransferResponse) × (response ≡ some r) × (r.request_accepted ≡ false))
    × ((x : Err) × (e ≡ some x))

pub Negative-TurnedDown :
    (null : Node) (t : MessageType) (id : TransferId) (result : ValidationResult) (e : Option Err)
    (is_paused stay_paused : Bool)
    → Negative result e
    → TurnedDown (
      some (validation_result_response null t id result e is_paused),
      request_error result e stay_paused,
    )
Negative-TurnedDown null t id result (some x) is_paused stay_paused h =
    ((validation_result_response null t id result (some x) is_paused, refl, refl), (x, refl))
Negative-TurnedDown null t id result none is_paused stay_paused (inl (x, h)) = cc
Negative-TurnedDown null t id result none is_paused stay_paused (inr (_, h)) =
    ((validation_result_response null t id result none is_paused, refl, h), (rejected, rw h refl))

module _ {g : Group} (p : Setup) (chid : ChannelId) (incoming : TransferRequest)
    (s : Manager g) where
  -- What the validator for a voucher says of the request.
  abbrev pub verdict : Validator → TypedVoucher → Node → ValidationResult × Option Err
  verdict validator voucher stor =
      (if incoming.pull then validator.validate_pull else validator.validate_push) chid
        chid.initiator voucher.voucher (Request.base_cid incoming) stor

  -- The request has a selector and a voucher, there is a validator for the type of the voucher, and it
  -- accepts the request without an error.
  pub record Approved : Type 0 where
    pub stor : Node
    pub voucher : TypedVoucher
    pub validator : Validator
    pub has_selector : Request.selector incoming ≡ ok stor
    pub has_voucher : Request.typed_voucher incoming ≡ ok voucher
    pub registered : processor s.validated_types voucher.type_id ≡ some validator
    pub no_error : (verdict validator voucher stor).1 ≡ none
    pub accepts : (verdict validator voucher stor).0.accepted ≡ true

  accept_request_cases :
      Approved ⊎ Ends (λ s' r. (s' ≡ s) × Negative r.0 r.1) (accept_request g p chid incoming s)
  unfolding accept_request
  accept_request_cases = elim (Result-cases (Request.selector incoming)) [
    | inl (x, h) ↦ inr (rw (h, Ends) (refl, inl (x, refl)))
    | inr (stor, h) ↦ elim (Result-cases (Request.typed_voucher incoming)) [
      | inl (x, h2) ↦ inr (rw (h, h2, Ends) (refl, inl (x, refl)))
      | inr (voucher, h2) ↦ elim (Option-cases (processor s.validated_types voucher.type_id)) [
        | inl h3 ↦ inr (rw (h, h2, h3, Ends) (refl, inl (other "unknown voucher type", refl)))
        | inr (validator, h3) ↦ elim (Option-cases (verdict validator voucher stor).1) [
          | inr (x, h4) ↦ inr (rw (h, h2, h3, h4, Ends) (refl, inl (x, refl)))
          | inl h4 ↦ elim (Bool-cases (verdict validator voucher stor).0.accepted) [
            | inl h5 ↦ inl (record {
              stor = stor;
              voucher = voucher;
              validator = validator;
              has_selector = h;
              has_voucher = h2;
              registered = h3;
              no_error = h4;
              accepts = h5;
            })
            | inr h5 ↦ inr (rw (h, h2, h3, h4, h5, Ends) (refl, inr (refl, h5)))
          ]
        ]
      ]
    ]
  ]

  -- A new request is turned down, and nothing at all changes, unless it has a selector and a voucher,
  -- there is a validator for the voucher's type, and that accepts the request without an error.
  pub receive_new_request_guarded :
      Approved ⊎ Ends (λ s' r. (s' ≡ s) × TurnedDown r) (receive_new_request g p chid incoming s)
  unfolding receive_new_request
  receive_new_request_guarded = elim accept_request_cases [
    | inl h ↦ inl h
    | inr h ↦ inr (
        Ends-bind (λ s' r. (s' ≡ s) × Negative r.0 r.1) (λ s' r. (s' ≡ s) × TurnedDown r)
          (accept_request g p chid incoming)
          (λ (result, e). done (
            some (
                validation_result_response p.null new_message incoming.transfer_id result e
                  result.force_pause),
            request_error result e result.force_pause,
          ))
          s h
          λ s' (result, e) (same, bad). (
            same,
            Negative-TurnedDown p.null new_message incoming.transfer_id result e result.force_pause
                result.force_pause bad,
          ))
  ]
