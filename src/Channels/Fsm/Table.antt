-- ===== src/Channels/Fsm/Table.antt =====
-- The words in which channels/channels_fsm.go writes its table of events: the builders `Event`,
-- `From`, `FromMany`, `FromAny`, `To`, `ToNoChange`, `ToJustRecord` and `Action` of go-statemachine.
-- A table entry is data here. What the state machine makes of an entry is in Engine.
use go_data_transfer.Base.{ℕ, ℤ, ◌+◌, ◌%◌, ◌^◌, Bool, List, [], ◌∷◌, String, ltb_ℤ, if◌then◌else◌}
use go_data_transfer.Statuses.{Status}
use go_data_transfer.Events.{EventCode}
use go_data_transfer.Types.{TypedVoucher}
use go_data_transfer.Channels.Internal.{ChannelState}

pub data Source : Type 0 where
  from : Status → Source
  from_any : Source

pub data Target : Type 0 where
  to : Status → Target
  no_change just_record : Target

abbrev pub from_many : List Status → Target → List (Source × Target)
from_many [] t = []
from_many (s ∷ ss) t = (from s, t) ∷ from_many ss t

-- The parameter of an action behind the state; each action reads the clock once, in `AddLog`.
pub data Action : Type 0 where
  plain : (ℕ → ChannelState → ChannelState) → Action
  with_index : (ℤ → ℕ → ChannelState → ChannelState) → Action
  with_bytes : (ℕ → ℕ → ChannelState → ChannelState) → Action
  with_flag : (Bool → ℕ → ChannelState → ChannelState) → Action
  with_error : (String → ℕ → ChannelState → ChannelState) → Action
  with_voucher : (TypedVoucher → ℕ → ChannelState → ChannelState) → Action

pub record EventDesc : Type 0 where
  pub code : EventCode
  pub transitions : List (Source × Target)
  pub action : Action

-- uint64 addition.
abbrev pub add_u64 : ℕ → ℕ → ℕ
add_u64 a b = (a + b) % 2 ^ 64

-- `if index > total { total = index }`
abbrev pub raise_index : ℤ → ℤ → ℤ
raise_index index total = if ltb_ℤ total index then index else total
