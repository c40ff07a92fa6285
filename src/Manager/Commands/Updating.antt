-- ===== src/Manager/Commands/Updating.antt =====
-- `UpdateValidationStatus` of impl/impl.go: an update that is recorded, and what the transport is told.
use go_data_transfer.Base.{
  Bool, true, false, not, ◌&&◌, ◌≡◌, sym, subst, refl, inl, inr, List, ◌∷◌, Option, none, some,
  ◌==◌, Option-cases, if◌then◌else◌,
}
use go_data_transfer.Statuses.{status_eq, in_finalization, finalizing}
use go_data_transfer.Types.{ChannelId}
use go_data_transfer.Errors.{Err, ok}
use go_data_transfer.Channels.Internal.{ChannelState}
use go_data_transfer.Channels.State.{channel_id, responder_paused}
use go_data_transfer.Channels.Group.{Group}
use go_data_transfer.Validation.{ValidationResult, leave_request_paused}
use go_data_transfer.Messages.{voucher_result_message, complete_message}
use go_data_transfer.Messages.Response.{TransferResponse}
use go_data_transfer.Messages.Build.{validation_result_response}
use go_data_transfer.Messages.Wire.{a_response}
use go_data_transfer.Manager.World.{
  Setup, Manager, Step, Call, send_message, resume_transfer, pause_transfer, close_transfer,
  asserting_pauseable, ◌>>◌, ◌>>=◌, done, attempt, call,
}
use go_data_transfer.Manager.Rules.{Ends, Ends-bind}
use go_data_transfer.Manager.Control.{pausable}
use go_data_transfer.Manager.Outcomes.{record_accepted_validation_events}
use go_data_transfer.Manager.Outcomes.Notes.{Keeps}
use go_data_transfer.Manager.Outcomes.Recording.{
  validated, record_accepted_validation_events-validated,
}
use go_data_transfer.Manager.Commands.Validating.{
  Processed, recording, on_recorded, process_validation_update_read,
}
use go_data_transfer.Manager.Commands.ValidationUpdate.{
  process_validation_update, handle_transport_update, update_validation_status,
}

module _ (g : Group) (p : Setup) (result : ValidationResult) (chst : ChannelState) where
  abbrev update_response_of : TransferResponse
  update_response_of =
      validation_result_response p.null
        (if status_eq chst.status finalizing then complete_message else voucher_result_message)
        chst.transfer_id result none (leave_request_paused result chst)

  -- What the network and the transport are asked after `earlier`: a channel that is to go on again is
  -- resumed, with the response; otherwise the response is sent, and if that has no error, a channel
  -- that has not been paused is, if it is to be left so.
  abbrev pub calls_after : (was left : Bool) → List Call → List Call
  calls_after was left earlier =
      let response = a_response update_response_of in
      let sending : Call = send_message (channel_id chst).initiator response in
      if was && not left
      then resume_transfer (some response) (channel_id chst) ∷ earlier
      else if left && not was
      then elim (p.answer earlier sending) [
        | none ↦ pause_transfer (channel_id chst) ∷ sending ∷ earlier
        | some e ↦ sending ∷ earlier
      ]
      else sending ∷ earlier

  abbrev sending : Call
  sending = send_message (channel_id chst).initiator (a_response update_response_of)

  abbrev pub Updated : Manager g → Type 0
  Updated s' =
      Keeps g (channel_id chst) (validated g chst result) s'.channels
      × ((earlier : List Call) × (s'.calls
            ≡ calls_after (responder_paused chst) (leave_request_paused result chst) earlier))

  -- `handleTransportUpdate` with the Booleans that it computes.
  abbrev transported : (was left final accepts : Bool) → Step g (Option Err)
  transported was left final accepts =
      let response = a_response update_response_of in
      if accepts && not left && was && not final
      then asserting_pauseable p (call p (resume_transfer (some response) (channel_id chst)))
      else attempt (call p (send_message (channel_id chst).initiator response)) (λ e. done (some e))
          (if not accepts
            then (call p (close_transfer (channel_id chst)) >> done none)
            else if left && not was && not final
            then asserting_pauseable p (call p (pause_transfer (channel_id chst)))
            else done none)

  abbrev Transported : Bool → Bool → Manager g → Type 0
  Transported was left s' =
      Keeps g (channel_id chst) (validated g chst result) s'.channels
      × ((earlier : List Call) × (s'.calls ≡ calls_after was left earlier))

  transported-Transported :
      (was left : Bool) (s : Manager g)
      → p.pauseable ≡ true
      → Keeps g (channel_id chst) (validated g chst result) s.channels
      → Ends (λ s' e. Transported was left s') (transported was left false true s)
  transported-Transported true true s can kept = elim (Option-cases (p.answer s.calls sending)) [
    | inl h ↦ rw (h, Ends) (kept, (s.calls, refl))
    | inr (x, h) ↦ rw (h, Ends) (kept, (s.calls, refl))
  ]
  transported-Transported true false s can kept = rw can (kept, (s.calls, refl))
  transported-Transported false true s can kept = elim (Option-cases (p.answer s.calls sending)) [
    | inl h ↦ rw (h, can, Ends) (kept, (s.calls, rw h refl))
    | inr (x, h) ↦ rw (h, Ends) (kept, (s.calls, rw h refl))
  ]
  transported-Transported false false s can kept = elim (Option-cases (p.answer s.calls sending)) [
    | inl h ↦ rw (h, Ends) (kept, (s.calls, refl))
    | inr (x, h) ↦ rw (h, Ends) (kept, (s.calls, refl))
  ]

  abbrev Kept : Manager g → Type 0
  Kept s' = Keeps g (channel_id chst) (validated g chst result) s'.channels

  process_validation_update-Kept :
      (s : Manager g)
      → g.get_sync s.channels.store (channel_id chst) ≡ ok chst
      → pausable chst.status ≡ true
      → result.accepted ≡ true
      → Ends
          (λ s' r. Kept s' × (r ≡ (some chst, some update_response_of, none)))
          (process_validation_update g p (channel_id chst) result s)
  process_validation_update-Kept s got live accepts =
      let chid : ChannelId = channel_id chst in
      let goal : Manager g → Processed g p chid result s → Type 0 =
        λ s' r. Kept s' × (r ≡ (some chst, some update_response_of, none)) in
      let on_recorded = on_recorded g p chid result s chst in
      let recorded =
        Ends-bind (λ s' e. Kept s' × (e ≡ none)) goal
          (record_accepted_validation_events g chst result) on_recorded s
          (record_accepted_validation_events-validated g chst result s got live)
          λ s' e (kept, fine). subst (λ e. Ends goal (on_recorded e s')) (sym fine) (kept, refl) in
      subst (Ends goal) (sym (process_validation_update_read g p chid result s chst got)) (
        subst (λ a. Ends goal ((recording g p chid result s a chst >>= on_recorded) s))
          (sym accepts) recorded)

  -- A result that accepts, for a channel that this node is the responder of, in a status in which it
  -- can pause and that is not of the finalization, over a transport that can pause: the stored channel
  -- is as the result has it, and the last calls are those by which the channel goes on, or stays
  -- paused, as the result has it.
  pub update_validation_status-Updated :
      (s : Manager g)
      → ((channel_id chst).initiator == p.peer_id) ≡ false
      → g.get_sync s.channels.store (channel_id chst) ≡ ok chst
      → pausable chst.status ≡ true
      → in_finalization chst.status ≡ false
      → result.accepted ≡ true
      → p.pauseable ≡ true
      → Ends (λ s' e. Updated s') (update_validation_status g p (channel_id chst) result s)
  unfolding update_validation_status handle_transport_update
  update_validation_status-Updated s apart got live going accepts can =
      let chid : ChannelId = channel_id chst in
      let was : Bool = responder_paused chst in
      let left : Bool = leave_request_paused result chst in
      let handle : Processed g p chid result s → Step g (Option Err) =
        λ (chst, response, e). handle_transport_update g p chst response result e in
      rw (update_validation_status, apart)
        (Ends-bind (λ s' r. Kept s' × (r ≡ (some chst, some update_response_of, none)))
          (λ s' e. Updated s') (process_validation_update g p chid result) handle s
          (process_validation_update-Kept s got live accepts)
          λ s' r (kept, fine).
            subst (λ r. Ends (λ s' e. Updated s') (handle r s')) (sym fine)
              (subst
                (λ a.
                  Ends (λ s' e. Updated s')
                    (transported was left (in_finalization chst.status) a s'))
                (sym accepts)
                (subst (λ f. Ends (λ s' e. Updated s') (transported was left f true s')) (sym going)
                  (transported-Transported was left s' can kept))))
