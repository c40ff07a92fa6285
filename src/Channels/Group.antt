-- ===== src/Channels/Group.antt =====
-- The state machine group of go-statemachine, kept in a datastore by go-ds-versioning, as a
-- parameter: the operations of it that channels/channels.go calls, and what they are documented to
-- do with a channel that is stored. `clock` is the time that the next event is processed at.
pub mod Stored
use go_data_transfer.Base.{ℕ, ◌≡◌, Bool, true, false, List, [], ◌∷◌, Option, none, some, ◌>>=◌}
use go_data_transfer.Events.{EventCode}
use go_data_transfer.Types.{ChannelId, channel_id_eq}
use go_data_transfer.Errors.{Err, Result, ok, err, terminated}
use go_data_transfer.Channels.Internal.{ChannelState}
use go_data_transfer.Channels.Fsm.Finality.{
  channel_parameters, is_channel_terminated, is_channel_cleaning_up,
}
use go_data_transfer.Channels.Fsm.Engine.{Args, documented}
use go_data_transfer.Channels.Fsm.Machine.{state_or, effect}

-- The state after one event, by the rules that `Engine` states.
abbrev pub next_state : ℕ → EventCode → Args → ChannelState → ChannelState
next_state now e a ch = state_or ch (documented channel_parameters e a now ch)

pub record Group : Type 1 where
  pub Store : Type 0
  pub clock : Store → ℕ
  pub has : Store → ChannelId → Result Bool
  pub begin : Store → ChannelId → ChannelState → Store × Option Err
  pub send : Store → ChannelId → EventCode → Args → Store × Option Err
  pub get_sync : Store → ChannelId → Result ChannelState
  pub list : Store → Result (List ChannelState)
  -- `Has` finds what `GetSync` reads.
  pub has-get_sync :
      (s : Store) (c : ChannelId) (ch : ChannelState) → get_sync s c ≡ ok ch → has s c ≡ ok true
  -- `Begin` on a fresh identifier stores the state.
  pub get_sync-begin :
      (s : Store) (c : ChannelId) (ch : ChannelState)
      → has s c ≡ ok false
      → (get_sync (begin s c ch).0 c ≡ ok ch) × ((begin s c ch).1 ≡ none)
  -- `Send` processes the event, unless that has the state machine run an entry function; it has no
  -- error of its own if the event is in the table with these arguments.
  pub get_sync-send :
      (s : Store) (c : ChannelId) (e : EventCode) (a : Args) (ch : ChannelState)
      → get_sync s c ≡ ok ch
      → is_channel_terminated ch.status ≡ false
      → is_channel_cleaning_up (next_state (clock s) e a ch).status ≡ false
      → get_sync (send s c e a).0 c ≡ ok (next_state (clock s) e a ch)
  pub send_accepts :
      (s : Store) (c : ChannelId) (e : EventCode) (a : Args) (ch ch' : ChannelState)
      → get_sync s c ≡ ok ch
      → is_channel_terminated ch.status ≡ false
      → effect e a (clock s) ch ≡ some ch'
      → (send s c e a).1 ≡ none
  -- A channel in a finality state takes no event.
  pub send_terminated :
      (s : Store) (c : ChannelId) (e : EventCode) (a : Args) (ch : ChannelState)
      → get_sync s c ≡ ok ch
      → is_channel_terminated ch.status ≡ true
      → send s c e a ≡ (s, some terminated)
  -- Other channels are left alone.
  pub get_sync-send_other :
      (s : Store) (c d : ChannelId) (e : EventCode) (a : Args)
      → channel_id_eq c d ≡ false
      → get_sync (send s c e a).0 d ≡ get_sync s d
