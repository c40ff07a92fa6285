-- ===== src/Manager/Outcomes/Notes.antt =====
-- The events by which impl/receiving_requests.go records a part of a validation, in the store.
use go_data_transfer.Base.{
  ℕ, Bool, true, false, ◌≡◌, refl, ap, ◌∙◌, arith, [], ◌∷◌, ◌++◌, none, some, String,
}
use go_data_transfer.Statuses.{Status}
use go_data_transfer.Events.{EventCode}
use go_data_transfer.Types.{ChannelId, TypedVoucher}
use go_data_transfer.Errors.{ok}
use go_data_transfer.Channels.Internal.{ChannelState, EncodedVoucherResult, add_log}
use go_data_transfer.Channels.Fsm.Table.{Target, no_change, just_record}
use go_data_transfer.Channels.Fsm.Finality.{is_channel_terminated, is_channel_cleaning_up}
use go_data_transfer.Channels.Fsm.Engine.{
  Args, nothing, some_bytes, a_flag, a_voucher, run_action, land,
}
use go_data_transfer.Channels.Fsm.Machine.{effect}
use go_data_transfer.Channels.Fsm.Machine.Status.{moves, goes}
use go_data_transfer.Channels.Group.{Group}
use go_data_transfer.Channels.Ops.{Channels, send}
use go_data_transfer.Channels.Ops.Taking.{send-land}
use go_data_transfer.Manager.Control.{pausable}

-- A channel without its log.
abbrev pub bare : ChannelState → ChannelState
bare ch = record ch { stages = none }

-- The events that record a part of a validation, and what each writes.
pub data Note : Type 0 where
  a_result : TypedVoucher → Note
  a_limit : ℕ → Note
  a_finalization : Bool → Note
  a_pause : Bool → Note

abbrev pub code : Note → EventCode
code (a_result v) = EventCode.new_voucher_result
code (a_limit l) = EventCode.set_data_limit
code (a_finalization b) = EventCode.set_requires_finalization
code (a_pause true) = EventCode.pause_responder
code (a_pause false) = EventCode.resume_responder

abbrev pub args : Note → Args
args (a_result v) = a_voucher v
args (a_limit l) = some_bytes l
args (a_finalization b) = a_flag b
args (a_pause b) = nothing

abbrev pub encoded : TypedVoucher → EncodedVoucherResult
encoded v = record { type_id = v.type_id; voucher_result = v.voucher }

abbrev pub write : Note → ChannelState → ChannelState
write (a_result v) ch = record ch { voucher_results = ch.voucher_results ++ encoded v ∷ [] }
write (a_limit l) ch = record ch { data_limit = l }
write (a_finalization b) ch = record ch { requires_finalization = b }
write (a_pause b) ch = record ch { responder_paused = b }

abbrev text : Note → String
text (a_result v) = "got new voucher result"
text _ = ""

abbrev target : Note → Target
target (a_result v) = no_change
target _ = just_record

moves-code : (n : Note) (s : Status) → pausable s ≡ true → moves (code n) s ≡ some (target n)
unfolding moves
moves-code (a_result v) s h = ground arith
moves-code (a_limit l) s h = ground arith
moves-code (a_finalization b) s h = ground arith
moves-code (a_pause true) s h = ground arith
moves-code (a_pause false) s h = ground arith

effect-code :
    (n : Note) (now : ℕ) (ch : ChannelState)
    → effect (code n) (args n) now ch ≡ some (add_log now (text n) (write n ch))
unfolding effect run_action
effect-code (a_result v) now ch = refl
effect-code (a_limit l) now ch = refl
effect-code (a_finalization b) now ch = refl
effect-code (a_pause true) now ch = refl
effect-code (a_pause false) now ch = refl

land-write :
    (n : Note) (now : ℕ) (ch : ChannelState)
    → (bare (land (target n) (add_log now (text n) (write n ch))).0 ≡ write n (bare ch))
      × ((write n ch).status ≡ ch.status)
      × (goes (target n) ch.status ≡ ch.status)
unfolding land add_log
land-write (a_result v) now ch = (refl, refl, refl)
land-write (a_limit l) now ch = (refl, refl, refl)
land-write (a_finalization b) now ch = (refl, refl, refl)
land-write (a_pause b) now ch = (refl, refl, refl)

pausable_calm :
    (s : Status)
    → pausable s ≡ true
    → (is_channel_terminated s ≡ false) × (is_channel_cleaning_up s ≡ false)
pausable_calm s h = ground arith

module _ (g : Group) (chid : ChannelId) where
  -- The stored channel is this one, but for the log.
  abbrev pub Keeps : ChannelState → Channels g → Type 0
  Keeps t c = (ch : ChannelState) × (g.get_sync c.store chid ≡ ok ch) × (bare ch ≡ t)

  pub send-write :
      (n : Note) (t : ChannelState) (c : Channels g)
      → pausable t.status ≡ true
      → Keeps t c
      → let r = send g chid (code n) (args n) c in Keeps (write n t) r.0 × (r.1 ≡ none)
  send-write n t c h (ch, got, same) =
      let can : pausable ch.status ≡ true = ap (λ (x : ChannelState). pausable x.status) same ∙ h in
      let (live, calm) = pausable_calm ch.status can in
      let now : ℕ = g.clock c.store in
      let (landed, _, stays) = land-write n now ch in
      let acted : ChannelState = add_log now (text n) (write n ch) in
      let (stored, fine) =
        send-land g chid (code n) (args n) c ch acted (target n) got live
          (moves-code n ch.status can) (effect-code n now ch) (rw stays calm) in
      (((land (target n) acted).0, stored, landed ∙ ap (write n) same), fine)
