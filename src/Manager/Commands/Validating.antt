-- ===== src/Manager/Commands/Validating.antt =====
-- `UpdateValidationStatus` of impl/impl.go: what it reads and records first, and an update that it cannot record.
use go_data_transfer.Base.{
  Bool, true, false, not, ◌≡◌, ◌∙◌, sym, subst, refl, ◌⊎◌, inl, inr, Option, none, some, ◌==◌,
  if◌then◌else◌,
}
use go_data_transfer.Statuses.{status_eq, finalizing}
use go_data_transfer.Events.{EventCode}
use go_data_transfer.Types.{TypedVoucher, ChannelId}
use go_data_transfer.Errors.{Err, ok, err, not_found, terminated}
use go_data_transfer.Channels.Internal.{ChannelState}
use go_data_transfer.Channels.Fsm.Engine.{a_voucher, an_error}
use go_data_transfer.Channels.Fsm.Finality.{is_channel_terminated}
use go_data_transfer.Channels.Group.{Group}
use go_data_transfer.Channels.Ops.Sending.{send_over}
use go_data_transfer.Channels.Ops.Named.{error}
use go_data_transfer.Validation.{ValidationResult, leave_request_paused}
use go_data_transfer.Messages.{voucher_result_message, complete_message}
use go_data_transfer.Messages.Response.{TransferResponse}
use go_data_transfer.Messages.Build.{validation_result_response}
use go_data_transfer.Manager.World.{Setup, Manager, Step, ◌>>=◌, done, on_channels}
use go_data_transfer.Manager.Rules.{fetch_present, fetch_missing, bind_returns}
use go_data_transfer.Manager.Outcomes.{
  record_voucher_result, record_accepted_validation_events, record_rejected_validation_events,
}
use go_data_transfer.Manager.Commands.ValidationUpdate.{
  process_validation_update, handle_transport_update, update_validation_status,
}

module _ (g : Group) (p : Setup) (chid : ChannelId) (result : ValidationResult)
    (s : Manager g) where
  -- The channel cannot be read, or it is over and the result does not accept.
  abbrev pub Unprocessed : Type 0
  Unprocessed =
      ((e : Err) × (g.get_sync s.channels.store chid ≡ err e))
      ⊎ ((ch : ChannelState) × (g.get_sync s.channels.store chid ≡ ok ch)
          × (is_channel_terminated ch.status ≡ true)
          × (result.accepted ≡ false))

  voucher_result_over :
      (ch : ChannelState) (v : Option TypedVoucher)
      → g.get_sync s.channels.store chid ≡ ok ch
      → is_channel_terminated ch.status ≡ true
      → (e : Option Err) × (record_voucher_result g chid v s ≡ some (s, e))
        × ((e ≡ none) ⊎ (e ≡ some terminated))
  voucher_result_over ch none got over = (none, refl, inl refl)
  voucher_result_over ch (some v) got over = (
    some terminated,
    rw (send_over g chid EventCode.new_voucher_result (a_voucher v) s.channels ch got over) refl,
    inr refl,
  )

  record_rejected_over :
      (ch : ChannelState)
      → g.get_sync s.channels.store chid ≡ ok ch
      → is_channel_terminated ch.status ≡ true
      → record_rejected_validation_events g chid result s ≡ some (s, some terminated)
  unfolding record_rejected_validation_events
  record_rejected_over ch got over =
      let (e, returns, what) = voucher_result_over ch result.voucher_result got over in
      let rest : Option Err → Step g (Option Err) = λ e. elim e [
        | none ↦ on_channels (error g chid "response rejected")
        | some x ↦ done (some x)
      ] in
      bind_returns (record_voucher_result g chid result.voucher_result) rest s s e returns
      ∙ elim what [
        | inl h ↦
            rw
              (
                h,
                send_over g chid EventCode.error (an_error "response rejected") s.channels ch got
                    over,
              )
              refl
        | inr h ↦ rw h refl
      ]

  abbrev pub Processed : Type 0
  Processed = Option ChannelState × Option TransferResponse × Option Err

  abbrev pub recording : Bool → ChannelState → Step g (Option Err)
  recording accepts chst =
      if not accepts
      then record_rejected_validation_events g chid result
      else record_accepted_validation_events g chst result

  abbrev pub on_recorded : ChannelState → Option Err → Step g Processed
  on_recorded chst e = elim e [
    | none ↦ done (
      some chst,
      some (
          validation_result_response p.null
            (if status_eq chst.status finalizing then complete_message else voucher_result_message)
            chst.transfer_id result none (leave_request_paused result chst)),
      none,
    )
    | some x ↦ done (none, none, some x)
  ]

  -- `processValidationUpdate` on the channel that is read.
  pub process_validation_update_read :
      (ch : ChannelState)
      → g.get_sync s.channels.store chid ≡ ok ch
      → process_validation_update g p chid result s
        ≡ (recording result.accepted ch >>= on_recorded ch) s
  unfolding process_validation_update
  process_validation_update_read ch got =
      fetch_present chid (λ e. done (none, none, some e))
        (λ ch. recording result.accepted ch >>= on_recorded ch) s ch got

  process_validation_update_fails :
      Unprocessed
      → (e : Err) × (process_validation_update g p chid result s ≡ some (s, (none, none, some e)))
  unfolding process_validation_update
  process_validation_update_fails (inl (e, missing)) = (
    not_found chid,
    fetch_missing chid (λ e. done (none, none, some e))
        (λ ch. recording result.accepted ch >>= on_recorded ch) s e missing,
  )
  process_validation_update_fails (inr (ch, got, over, rejects)) = (
    terminated,
    process_validation_update_read ch got
        ∙ bind_returns (recording result.accepted ch) (on_recorded ch) s s (some terminated) (
            subst (λ a. recording a ch s ≡ some (s, some terminated)) (sym rejects)
              (record_rejected_over ch got over)),
  )

  -- A responder's update panics if the channel cannot be read, or is over and the result rejects.
  pub update_validation_status_panics :
      (chid.initiator == p.peer_id) ≡ false
      → Unprocessed
      → update_validation_status g p chid result s ≡ none
  unfolding update_validation_status handle_transport_update
  update_validation_status_panics apart h =
      let (e, fails) = process_validation_update_fails h in
      rw (update_validation_status, apart)
        (bind_returns (process_validation_update g p chid result)
          (λ (chst, response, e). handle_transport_update g p chst response result e) s s
          (none, none, some e) fails)
