-- ===== src/Manager/Outcomes/Recording.antt =====
-- What the stored channel is after `recordAcceptedValidationEvents` of impl/receiving_requests.go.
use go_data_transfer.Base.{
  Bool, true, false, ◌≡◌, refl, sym, ap, subst, ◌∙◌, arith, List, [], ◌∷◌, ◌++◌, Option, none, some,
  ◌||◌, ◌==◌, ==_iff, if◌then◌else◌,
}
use go_data_transfer.Statuses.{Status, status_eq, finalizing}
use go_data_transfer.Types.{ChannelId, TypedVoucher}
use go_data_transfer.Errors.{Err, ok}
use go_data_transfer.Channels.Internal.{ChannelState, EncodedVoucherResult}
use go_data_transfer.Channels.State.{channel_id, responder_paused}
use go_data_transfer.Channels.Group.{Group}
use go_data_transfer.Channels.Ops.{set_data_limit}
use go_data_transfer.Channels.Caches.{cache_data_limit}
use go_data_transfer.Channels.Ops.Named.{
  set_requires_finalization, pause_responder, resume_responder,
}
use go_data_transfer.Validation.{ValidationResult, leave_request_paused, same_bool}
use go_data_transfer.Manager.World.{Manager, Step, attempt, done, on_channels}
use go_data_transfer.Manager.Rules.{Ends, Ends-attempt}
use go_data_transfer.Manager.Control.{pausable}
use go_data_transfer.Manager.Outcomes.Notes.{
  bare, a_result, a_limit, a_finalization, a_pause, encoded, Keeps, send-write,
}
use go_data_transfer.Manager.Outcomes.{
  with_voucher, record_voucher_result, record_data_limit, record_finalization, record_pause,
  record_accepted_validation_events,
}

not_finalizing : (s : Status) → pausable s ≡ true → status_eq s finalizing ≡ false
not_finalizing s h = ground arith

or_false : (b : Bool) → (b || false) ≡ b
or_false true = refl
or_false false = refl

same_bool-eq : (b c : Bool) → same_bool b c ≡ true → b ≡ c
same_bool-eq true true h = refl
same_bool-eq true false h = cc
same_bool-eq false true h = cc
same_bool-eq false false h = refl

module _ (g : Group) (chst : ChannelState) where
  abbrev Notes : ChannelState → Option (Manager g × Option Err) → Type 0
  Notes t = Ends (λ s' e. Keeps g (channel_id chst) t s'.channels × (e ≡ none))

  abbrev appended : Option TypedVoucher → List EncodedVoucherResult → List EncodedVoucherResult
  appended none l = l
  appended (some v) l = l ++ encoded v ∷ []

  record_voucher_result_lem :
      (v : Option TypedVoucher) (t : ChannelState) (s : Manager g)
      → pausable t.status ≡ true
      → Keeps g (channel_id chst) t s.channels
      → Notes
          (record t { voucher_results = appended v t.voucher_results })
          (record_voucher_result g (channel_id chst) v s)
  record_voucher_result_lem none t s h k = (k, refl)
  record_voucher_result_lem (some v) t s h k =
      send-write g (channel_id chst) (a_result v) t s.channels h k

  unless :
      (t : ChannelState) (b : Bool) (m : Step g (Option Err)) (s : Manager g)
      → (b ≡ true → Keeps g (channel_id chst) t s.channels)
      → Notes t (m s)
      → Notes t ((if b then done none else m) s)
  unless t true m s k h = (k refl, refl)
  unless t false m s k h = h

  record_data_limit_lem :
      (result : ValidationResult) (t : ChannelState) (s : Manager g)
      → pausable t.status ≡ true
      → t.data_limit ≡ chst.data_limit
      → Keeps g (channel_id chst) t s.channels
      → Notes (record t { data_limit = result.data_limit }) (record_data_limit g chst result s)
  unfolding set_data_limit
  record_data_limit_lem result t s h same k =
      let t' : ChannelState = record t { data_limit = result.data_limit } in
      unless t' (result.data_limit == chst.data_limit)
        (on_channels (set_data_limit g (channel_id chst) result.data_limit)) s
        (λ e.
          subst (λ l. Keeps g (channel_id chst) (record t { data_limit = l }) s.channels)
            (same ∙ sym ((==_iff result.data_limit chst.data_limit).0 e)) k)
        (send-write g (channel_id chst) (a_limit result.data_limit) t
          (record s.channels {
            progress_cache =
                cache_data_limit s.channels.progress_cache (channel_id chst) result.data_limit;
          })
          h k)

  record_finalization_lem :
      (result : ValidationResult) (t : ChannelState) (s : Manager g)
      → pausable t.status ≡ true
      → t.requires_finalization ≡ chst.requires_finalization
      → Keeps g (channel_id chst) t s.channels
      → Notes
          (record t { requires_finalization = result.requires_finalization })
          (record_finalization g chst result s)
  record_finalization_lem result t s h same k =
      let flag : Bool = result.requires_finalization in
      unless (record t { requires_finalization = flag }) (same_bool flag chst.requires_finalization)
        (on_channels (set_requires_finalization g (channel_id chst) flag)) s
        (λ e.
          subst (λ b. Keeps g (channel_id chst) (record t { requires_finalization = b }) s.channels)
            (same ∙ sym (same_bool-eq flag chst.requires_finalization e)) k)
        (send-write g (channel_id chst) (a_finalization flag) t s.channels h k)

  responder_paused_lem : pausable chst.status ≡ true → responder_paused chst ≡ chst.responder_paused
  responder_paused_lem h =
      ap (λ b. chst.responder_paused || b) (not_finalizing chst.status h)
      ∙ or_false chst.responder_paused

  set_pause :
      (left stopped : Bool) (t : ChannelState) (s : Manager g)
      → pausable t.status ≡ true
      → t.responder_paused ≡ stopped
      → Keeps g (channel_id chst) t s.channels
      → Notes
          (record t { responder_paused = left })
          ((if left
              then (if stopped
                  then done none
                  else on_channels (pause_responder g (channel_id chst)))
              else if stopped
              then on_channels (resume_responder g (channel_id chst))
              else done none)
            s)
  set_pause true true t s h same k = (
    subst (λ b. Keeps g (channel_id chst) (record t { responder_paused = b }) s.channels) same k,
    refl,
  )
  set_pause true false t s h same k = send-write g (channel_id chst) (a_pause true) t s.channels h k
  set_pause false true t s h same k =
      send-write g (channel_id chst) (a_pause false) t s.channels h k
  set_pause false false t s h same k = (
    subst (λ b. Keeps g (channel_id chst) (record t { responder_paused = b }) s.channels) same k,
    refl,
  )

  -- The channel that a validation result leaves, but for the log.
  abbrev pub validated : ValidationResult → ChannelState
  validated result = record chst {
    data_limit = result.data_limit;
    requires_finalization = result.requires_finalization;
    responder_paused = leave_request_paused result chst;
    voucher_results = appended (with_voucher result.voucher_result) chst.voucher_results;
    stages = none;
  }

  pub record_accepted_validation_events-validated :
      (result : ValidationResult) (s : Manager g)
      → g.get_sync s.channels.store (channel_id chst) ≡ ok chst
      → pausable chst.status ≡ true
      → Notes (validated result) (record_accepted_validation_events g chst result s)
  unfolding record_accepted_validation_events
  record_accepted_validation_events-validated result s got h =
      let v : Option TypedVoucher = with_voucher result.voucher_result in
      let t1 : ChannelState = record chst {
        voucher_results = appended v chst.voucher_results;
        stages = none;
      } in
      let t2 : ChannelState = record t1 { data_limit = result.data_limit } in
      let t3 : ChannelState = record t2 { requires_finalization = result.requires_finalization } in
      let chid : ChannelId = channel_id chst in
      let stop : Err → Step g (Option Err) = λ e. done (some e) in
      let goal : Manager g → Option Err → Type 0 =
        λ s' e. Keeps g chid (validated result) s'.channels × (e ≡ none) in
      let limit = record_data_limit g chst result in
      let flag = record_finalization g chst result in
      let last = record_pause g chst result in
      Ends-attempt (λ s'. Keeps g chid t1 s'.channels) goal (record_voucher_result g chid v) stop
        (attempt limit stop (attempt flag stop last)) s
        (record_voucher_result_lem v (bare chst) s h (chst, got, refl))
        λ s1 k1.
          Ends-attempt (λ s'. Keeps g chid t2 s'.channels) goal limit stop (attempt flag stop last)
            s1 (record_data_limit_lem result t1 s1 h refl k1)
            λ s2 k2.
              Ends-attempt (λ s'. Keeps g chid t3 s'.channels) goal flag stop last s2
                (record_finalization_lem result t2 s2 h refl k2)
                λ s3 k3.
                  set_pause (leave_request_paused result chst) (responder_paused chst) t3 s3 h
                    (sym (responder_paused_lem h)) k3
