-- ===== src/Manager/Control.antt =====
-- What a pause or a resume of the responder does to the initiator's channel.
use go_data_transfer.Base.{
  ◌≡◌, refl, arith, ℕ, Bool, true, false, [], ◌∷◌, none, some, ◌==◌, if◌then◌else◌,
}
use go_data_transfer.Statuses.{
  Status, contains, ongoing, requested, queued, awaiting_acceptance, transfer_finished,
}
use go_data_transfer.Events.{EventCode, pause_responder, resume_responder}
use go_data_transfer.Types.{Peer, ChannelId}
use go_data_transfer.Errors.{ok, pause}
use go_data_transfer.Channels.Internal.{ChannelState, add_log}
use go_data_transfer.Channels.Fsm.Table.{just_record}
use go_data_transfer.Channels.Fsm.Finality.{is_channel_terminated, is_channel_cleaning_up}
use go_data_transfer.Channels.Fsm.Engine.{nothing, run_action, land}
use go_data_transfer.Channels.Fsm.Machine.{effect}
use go_data_transfer.Channels.Fsm.Machine.Status.{moves}
use go_data_transfer.Channels.State.{self_paused}
use go_data_transfer.Channels.Group.{Group}
use go_data_transfer.Channels.Ops.Taking.{send-land}
use go_data_transfer.Channels.Ops.{proceed-none, Channels, send, get_by_id}
use go_data_transfer.Messages.Build.{update_response}
use go_data_transfer.Manager.{on_response_received, check_self_paused}

-- The statuses in which the responder may pause and resume.
abbrev pub pausable : Status → Bool
pausable s =
    contains (ongoing ∷ requested ∷ queued ∷ awaiting_acceptance ∷ transfer_finished ∷ []) s

abbrev control : Bool → EventCode
control true = pause_responder
control false = resume_responder

abbrev pub controlled : ℕ → Bool → ChannelState → ChannelState
controlled now paused ch = add_log now "" (record ch { responder_paused = paused })

moves-control :
    (s : Status) (paused : Bool) → pausable s ≡ true → moves (control paused) s ≡ some just_record
unfolding moves
moves-control s true h = ground arith
moves-control s false h = ground arith

effect-control :
    (now : ℕ) (paused : Bool) (ch : ChannelState)
    → effect (control paused) nothing now ch ≡ some (controlled now paused ch)
unfolding effect run_action
effect-control now true ch = refl
effect-control now false ch = refl

pausable_calm :
    (s : Status)
    → pausable s ≡ true
    → (is_channel_terminated s ≡ false) × (is_channel_cleaning_up s ≡ false)
pausable_calm s h = ground arith

module _ (g : Group) where
  control_stores :
      (chid : ChannelId) (paused : Bool) (c : Channels g) (ch : ChannelState)
      → g.get_sync c.store chid ≡ ok ch
      → pausable ch.status ≡ true
      → let r = send g chid (control paused) nothing c in
        (g.get_sync r.0.store chid ≡ ok (controlled (g.clock c.store) paused ch)) × (r.1 ≡ none)
  unfolding land
  control_stores chid paused c ch got h =
      let (live, calm) = pausable_calm ch.status h in
      let now : ℕ = g.clock c.store in
      send-land g chid (control paused) nothing c ch (controlled now paused ch) just_record got live
        (moves-control ch.status paused h) (effect-control now paused ch) calm

  -- An update response of the responder, in a status in which it may pause: its flag is what the
  -- channel of the initiator then has for the responder, and nothing else is changed but the log. The
  -- answer to the transport is no error for a pause; for a resume it is a pause just if this node has
  -- paused the channel itself.
  pub on_response_received-control :
      (self : Peer) (chid : ChannelId) (paused : Bool) (c : Channels g) (ch : ChannelState)
      → (chid.responder == self) ≡ false
      → g.get_sync c.store chid ≡ ok ch
      → pausable ch.status ≡ true
      → let r = on_response_received g self chid (update_response chid.id paused) c in
        let after = controlled (g.clock c.store) paused ch in
        (g.get_sync r.0.store chid ≡ ok after)
        × (r.1 ≡ (if paused then none else if self_paused after then some pause else none))
  unfolding on_response_received get_by_id
  on_response_received-control self chid true c ch apart got h =
      rw (apart, on_response_received) (control_stores chid true c ch got h)
  on_response_received-control self chid false c ch apart got h =
      let (stored, done) = control_stores chid false c ch got h in
      let resumed = send g chid resume_responder nothing c in
      rw (apart, on_response_received, proceed-none (check_self_paused g self chid) resumed done)
        (stored, rw (check_self_paused, get_by_id, stored) refl)
