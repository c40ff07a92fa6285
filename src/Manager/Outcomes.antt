-- ===== src/Manager/Outcomes.antt =====
-- What the manager records of a validation: the `record…` functions of impl/receiving_requests.go,
-- and `requestError`.
pub mod Notes
pub mod Recording
use go_data_transfer.Base.{Bool, false, not, Option, none, some, ◌==◌, if◌then◌else◌}
use go_data_transfer.Types.{ChannelId, TypedVoucher}
use go_data_transfer.Errors.{Err, rejected, pause}
use go_data_transfer.Channels.Internal.{ChannelState}
use go_data_transfer.Channels.State.{channel_id, responder_paused}
use go_data_transfer.Channels.Group.{Group}
use go_data_transfer.Channels.Ops.{set_data_limit}
use go_data_transfer.Channels.Ops.Named.{
  error, new_voucher_result, pause_responder, resume_responder, set_requires_finalization,
}
use go_data_transfer.Validation.{ValidationResult, same_bool, leave_request_paused}
use go_data_transfer.Manager.World.{Step, done, attempt, on_channels}

-- `datatransfer.ValidationResult{}`
abbrev pub no_result : ValidationResult
no_result = record {
  accepted = false;
  voucher_result = none;
  force_pause = false;
  data_limit = 0;
  requires_finalization = false;
}

abbrev pub request_error : ValidationResult → Option Err → Bool → Option Err
request_error result (some e) stay_paused = some e
request_error result none stay_paused =
    if not result.accepted then some rejected else if stay_paused then some pause else none

-- The voucher result that is recorded for an accepted request: one with a voucher in it.
abbrev pub with_voucher : Option TypedVoucher → Option TypedVoucher
with_voucher none = none
with_voucher (some v) = elim v.voucher [ none ↦ none | some n ↦ some v ]

module _ (g : Group) where
  abbrev pub record_voucher_result : ChannelId → Option TypedVoucher → Step g (Option Err)
  record_voucher_result chid none = done none
  record_voucher_result chid (some v) = on_channels (new_voucher_result g chid v)

  unfoldable pub record_rejected_validation_events :
      ChannelId → ValidationResult → Step g (Option Err)
  record_rejected_validation_events chid result =
      attempt (record_voucher_result chid result.voucher_result) (λ e. done (some e))
        (on_channels (error g chid "response rejected"))

  abbrev pub record_data_limit : ChannelState → ValidationResult → Step g (Option Err)
  record_data_limit chst result =
      if result.data_limit == chst.data_limit
      then done none
      else on_channels (set_data_limit g (channel_id chst) result.data_limit)

  abbrev pub record_finalization : ChannelState → ValidationResult → Step g (Option Err)
  record_finalization chst result =
      if same_bool result.requires_finalization chst.requires_finalization
      then done none
      else on_channels (set_requires_finalization g (channel_id chst) result.requires_finalization)

  abbrev pub record_pause : ChannelState → ValidationResult → Step g (Option Err)
  record_pause chst result =
      if leave_request_paused result chst
      then (if responder_paused chst
          then done none
          else on_channels (pause_responder g (channel_id chst)))
      else if responder_paused chst
      then on_channels (resume_responder g (channel_id chst))
      else done none

  unfoldable pub record_accepted_validation_events :
      ChannelState → ValidationResult → Step g (Option Err)
  record_accepted_validation_events chst result =
      attempt (record_voucher_result (channel_id chst) (with_voucher result.voucher_result))
        (λ e. done (some e))
        (attempt (record_data_limit chst result) (λ e. done (some e))
          (attempt (record_finalization chst result) (λ e. done (some e))
            (record_pause chst result)))
