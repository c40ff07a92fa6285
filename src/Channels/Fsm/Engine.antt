-- ===== src/Channels/Fsm/Engine.antt =====
-- go-statemachine, which is not part of the repository, as a parameter: `process` is what a state
-- machine does with one event, and `process_lem` is what the package documents of it. A machine in
-- a finality state takes no event. Otherwise the entry of the event's code applies: its transition
-- from the current status, or failing that the one from any status, says where to go. The action
-- runs first, then the status is set. `To` and `ToNoChange` call the entry function of the status
-- reached, `ToJustRecord` does not. With no such transition nothing happens.
use go_data_transfer.Base.{
  ℕ, ℤ, ◌≡◌, refl, Bool, true, false, List, [], ◌∷◌, Option, none, some, String, if◌then◌else◌,
  ◌>>=◌,
}
use go_data_transfer.Statuses.{Status, status_eq, contains}
use go_data_transfer.Events.{EventCode, event_eq}
use go_data_transfer.Types.{TypedVoucher}
use go_data_transfer.Channels.Internal.{ChannelState}
use go_data_transfer.Channels.Fsm.Table.{
  Source, from, from_any, Target, to, no_change, just_record, Action, plain, with_index, with_bytes,
  with_flag, with_error, with_voucher, EventDesc,
}
use go_data_transfer.Channels.Fsm.Finality.{Parameters}

-- The arguments sent with an event.
pub data Args : Type 0 where
  nothing : Args
  an_index : ℤ → Args
  some_bytes : ℕ → Args
  a_flag : Bool → Args
  an_error : String → Args
  a_voucher : TypedVoucher → Args

abbrev pub lookup_from : Status → List (Source × Target) → Option Target
lookup_from s [] = none
lookup_from s ((from r, t) ∷ ts) = if status_eq r s then some t else lookup_from s ts
lookup_from s ((from_any, t) ∷ ts) = lookup_from s ts

abbrev pub lookup_any : List (Source × Target) → Option Target
lookup_any [] = none
lookup_any ((from r, t) ∷ ts) = lookup_any ts
lookup_any ((from_any, t) ∷ ts) = some t

abbrev pub target_of : Status → List (Source × Target) → Option Target
target_of s ts = elim (lookup_from s ts) [ some t ↦ some t | none ↦ lookup_any ts ]

-- Arguments that do not fit the action are refused.
unfoldable pub run_action : Action → Args → ℕ → ChannelState → Option ChannelState
run_action (plain f) nothing now ch = some (f now ch)
run_action (with_index f) (an_index i) now ch = some (f i now ch)
run_action (with_bytes f) (some_bytes n) now ch = some (f n now ch)
run_action (with_flag f) (a_flag b) now ch = some (f b now ch)
run_action (with_error f) (an_error m) now ch = some (f m now ch)
run_action (with_voucher f) (a_voucher v) now ch = some (f v now ch)
run_action _ _ now ch = none

abbrev pub find_event : EventCode → List EventDesc → Option EventDesc
find_event e [] = none
find_event e (d ∷ ds) = if event_eq d.code e then some d else find_event e ds

-- The new state, and whether the entry function of its status is called.
unfoldable pub land : Target → ChannelState → ChannelState × Bool
land (to s) ch = (record ch { status = s }, true)
land no_change ch = (ch, true)
land just_record ch = (ch, false)

unfoldable pub apply_entry : EventDesc → Args → ℕ → ChannelState → Option (ChannelState × Bool)
apply_entry d a now ch = do
  t ← target_of ch.status d.transitions
  ch' ← run_action d.action a now ch
  some (land t ch')

unfoldable pub documented :
    Parameters → EventCode → Args → ℕ → ChannelState → Option (ChannelState × Bool)
documented p e a now ch =
    if contains p.finality_states ch.status
    then none
    else find_event e p.events >>= λ d. apply_entry d a now ch

pub record Engine : Type 0 where
  pub process : Parameters → EventCode → Args → ℕ → ChannelState → Option (ChannelState × Bool)
  pub process_lem :
      (p : Parameters) (e : EventCode) (a : Args) (now : ℕ) (ch : ChannelState)
      → process p e a now ch ≡ documented p e a now ch

-- An engine exists.
abbrev pub documented_engine : Engine
documented_engine = record { process = documented; process_lem = λ p e a now ch. refl }
