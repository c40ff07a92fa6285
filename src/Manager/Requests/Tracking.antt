-- ===== src/Manager/Requests/Tracking.antt =====
-- What impl/receiving_requests.go does with a new request that is accepted.
use go_data_transfer.Base.{
  ℕ, false, ◌≡◌, refl, sym, subst, ◌∙◌, ◌⊎◌, inl, inr, List, ◌∷◌, Option, none, some, Bool-cases,
  if◌then◌else◌,
}
use go_data_transfer.Types.{Peer, Node, ChannelId, TypedVoucher}
use go_data_transfer.Errors.{Err, ok}
use go_data_transfer.Channels.Internal.{ChannelState}
use go_data_transfer.Channels.State.{channel_id}
use go_data_transfer.Channels.Group.{Group}
use go_data_transfer.Channels.Ops.{create_new}
use go_data_transfer.Channels.Ops.Named.{accept}
use go_data_transfer.Channels.Ops.Creation.{Opens, create_new-Opens}
use go_data_transfer.Validation.{ValidationResult}
use go_data_transfer.Messages.Request
use go_data_transfer.Messages.Request.{TransferRequest}
use go_data_transfer.Manager.World.{
  Setup, Manager, Step, Call, protect, ◌>>◌, done, attempt, on_channels, tell, fetch,
}
use go_data_transfer.Manager.Rules.{Ends, Ends-bind, Ends-attempt, Ends-fetch}
use go_data_transfer.Manager.Restart.{configure_transport}
use go_data_transfer.Manager.Restart.Configuring.{configure_transport_keeps}
use go_data_transfer.Manager.Outcomes.{no_result, record_accepted_validation_events}
use go_data_transfer.Manager.Outcomes.Notes.{Keeps}
use go_data_transfer.Manager.Outcomes.Recording.{
  validated, record_accepted_validation_events-validated,
}
use go_data_transfer.Manager.Requests.{accept_request, start_tracking}
use go_data_transfer.Manager.Requests.Guarding.{Approved, verdict}
use go_data_transfer.Manager.Requests.Storing.{
  taken, accept_stores, taken-channel_id, get_by_id-get_sync,
}

module _ (g : Group) (p : Setup) (initiator : Peer) (incoming : TransferRequest) where
  -- The ID that `receiveRequest` gives the channel of a request.
  abbrev pub own_chid : ChannelId
  own_chid = record { initiator = initiator; responder = p.peer_id; id = incoming.transfer_id }

  abbrev sender : Peer
  sender = if incoming.pull then p.peer_id else initiator

  abbrev receiver : Peer
  receiver = if incoming.pull then initiator else p.peer_id

  -- A channel has been opened for the request, with its base CID and its voucher; it is queued, and as
  -- the result has it; and the last call protects the connection to the initiator.
  abbrev pub Tracked : TypedVoucher → ValidationResult → Manager g → Type 0
  Tracked v result s' =
      (opened : ChannelState) × (now : ℕ) × Opens own_chid p.peer_id sender receiver
        (Request.base_cid incoming) v opened
      × Keeps g own_chid (validated g (taken now opened) result) s'.channels
      × ((earlier : List Call) × (s'.calls ≡ protect initiator own_chid ∷ earlier))

  abbrev Goal : TypedVoucher → ValidationResult → Manager g → ValidationResult × Option Err → Type 0
  Goal v result s' r = (r ≡ (result, none)) × Tracked v result s'

  abbrev last_part : TypedVoucher → ValidationResult → Step g (ValidationResult × Option Err)
  last_part v result =
      configure_transport own_chid v >> tell (protect initiator own_chid) >> done (result, none)

  last_part_lem :
      (v : TypedVoucher) (result : ValidationResult) (opened : ChannelState) (now : ℕ)
      (s : Manager g)
      → Opens own_chid p.peer_id sender receiver (Request.base_cid incoming) v opened
      → Keeps g own_chid (validated g (taken now opened) result) s.channels
      → Ends (Goal v result) (last_part v result s)
  last_part_lem v result opened now s opens kept =
      let told : Manager g → Type 0 = λ s'.
        (s'.channels ≡ s.channels)
        × ((earlier : List Call) × (s'.calls ≡ protect initiator own_chid ∷ earlier)) in
      Ends-bind (λ s' a. told s') (Goal v result)
        (configure_transport own_chid v >> tell (protect initiator own_chid))
        (λ a. done (result, none)) s
        (Ends-bind (λ s' a. s'.channels ≡ s.channels) (λ s' a. told s')
          (configure_transport own_chid v) (λ a. tell (protect initiator own_chid)) s
          (configure_transport_keeps g own_chid v s) λ s' a same. (same, (s'.calls, refl)))
        λ s' a (same, calls). (
          refl,
          (
            opened,
            now,
            opens,
            subst (Keeps g own_chid (validated g (taken now opened) result)) (sym same) kept,
            calls,
          ),
        )

  recorded_part :
      (v : TypedVoucher) (result : ValidationResult) (opened : ChannelState) (now : ℕ)
      (s : Manager g)
      → Opens own_chid p.peer_id sender receiver (Request.base_cid incoming) v opened
      → g.get_sync s.channels.store own_chid ≡ ok (taken now opened)
      → Ends (Goal v result) (
          attempt
            (record_accepted_validation_events g (taken now opened) result)
            (λ x. done (result, some x))
            (last_part v result)
            s)
  recorded_part v result opened now s opens got =
      let chst : ChannelState = taken now opened in
      let same : channel_id chst ≡ own_chid = taken-channel_id now opened ∙ opens.own_id in
      Ends-attempt (λ s'. Keeps g own_chid (validated g chst result) s'.channels) (Goal v result)
        (record_accepted_validation_events g chst result) (λ x. done (result, some x))
        (last_part v result) s
        (subst
          (λ i.
            Ends (λ s' e. Keeps g i (validated g chst result) s'.channels × (e ≡ none))
              (record_accepted_validation_events g chst result s))
          same
          (record_accepted_validation_events-validated g chst result s
            (subst (λ i. g.get_sync s.channels.store i ≡ ok chst) (sym same) got) refl))
        λ s' kept. last_part_lem v result opened now s' opens kept

  abbrev accepted_part : TypedVoucher → ValidationResult → Step g (ValidationResult × Option Err)
  accepted_part v result =
      attempt (on_channels (accept g own_chid)) (λ x. done (result, some x))
        (fetch own_chid (λ x. done (no_result, some x))
          λ chst.
            attempt (record_accepted_validation_events g chst result) (λ x. done (result, some x))
              (last_part v result))

  accepted_part_lem :
      (v : TypedVoucher) (result : ValidationResult) (opened : ChannelState) (s : Manager g)
      → Opens own_chid p.peer_id sender receiver (Request.base_cid incoming) v opened
      → g.get_sync s.channels.store own_chid ≡ ok opened
      → Ends (Goal v result) (accepted_part v result s)
  accepted_part_lem v result opened s opens got =
      let now : ℕ = g.clock s.channels.store in
      let next : ChannelState → Step g (ValidationResult × Option Err) = λ chst.
        attempt (record_accepted_validation_events g chst result) (λ x. done (result, some x))
          (last_part v result) in
      Ends-attempt (λ s'. g.get_sync s'.channels.store own_chid ≡ ok (taken now opened))
        (Goal v result) (on_channels (accept g own_chid)) (λ x. done (result, some x))
        (fetch own_chid (λ x. done (no_result, some x)) next) s
        (accept_stores g own_chid s.channels opened got opens.opened)
        λ s' got'.
          Ends-fetch (Goal v result) own_chid (λ x. done (no_result, some x)) next s'
            (taken now opened) got' (recorded_part v result opened now s' opens got')

  start_tracking_lem :
      (stor : Node) (v : TypedVoucher) (result : ValidationResult) (s : Manager g)
      → g.has s.channels.store own_chid ≡ ok false
      → Ends (Goal v result) (start_tracking g p own_chid incoming stor v result s)
  unfolding start_tracking
  start_tracking_lem stor v result s fresh =
      let r =
        create_new g p.peer_id incoming.transfer_id (Request.base_cid incoming) (some stor) v
          initiator sender receiver s.channels in
      let (_, fine, (opened, got, opens)) =
        create_new-Opens g p.peer_id incoming.transfer_id (Request.base_cid incoming) (some stor) v
          initiator p.peer_id sender receiver s.channels roles (inr refl) fresh in
      let s' : Manager g = record s { channels = r.0 } in
      let rest : Option Err → Option (Manager g × (ValidationResult × Option Err)) =
        λ e. elim e [ some x ↦ done (result, some x) s' | none ↦ accepted_part v result s' ] in
      subst (λ e. Ends (Goal v result) (rest e)) (sym fine)
        (accepted_part_lem v result opened s' opens (get_by_id-get_sync g r.0 own_chid opened got))
    where
      roles :
          ((sender ≡ initiator) × (receiver ≡ p.peer_id))
          ⊎ ((sender ≡ p.peer_id) × (receiver ≡ initiator))
      roles = elim (Bool-cases incoming.pull) [
        | inl h ↦ inr (rw h refl, rw h refl)
        | inr h ↦ inl (rw h refl, rw h refl)
      ]

  -- A request to this node whose ID is not in use, that has a selector, a voucher, and a validator for
  -- its type which accepts it without an error: the outcome is the validator's result, without an
  -- error, and a channel is stored for the request, with its base CID and its voucher, that is queued
  -- and has the data limit, the finalization, the pause and the voucher result of that result; and the
  -- last call protects the connection to the initiator.
  pub accept_request-Tracked :
      (s : Manager g) (a : Approved p own_chid incoming s)
      → g.has s.channels.store own_chid ≡ ok false
      → let result = (verdict p own_chid incoming s a.validator a.voucher a.stor).0 in
        Ends
          (λ s' r. (r ≡ (result, none)) × Tracked a.voucher result s')
          (accept_request g p own_chid incoming s)
  unfolding accept_request
  accept_request-Tracked s a fresh =
      rw (Ends, accept_request, a.has_selector, a.has_voucher, a.registered, a.no_error, a.accepts)
        (start_tracking_lem a.stor a.voucher
          (verdict p own_chid incoming s a.validator a.voucher a.stor).0 s fresh)
