-- ===== src/Channels/Fsm/Finality.antt =====
-- The classes of statuses at the end of channels/channels_fsm.go, the cleanup on entering a cleanup
-- status, and the parameters of the state machines that `New` of channels/channels.go sets.
use go_data_transfer.Base.{Bool, List, [], ◌∷◌, Option, none, some, ◌==◌, if◌then◌else◌}
use go_data_transfer.Statuses.{
  Status, cancelling, completing, failing, cancelled, completed, failed, contains,
}
use go_data_transfer.Events.{EventCode, cleanup_complete}
use go_data_transfer.Types.{Peer, ChannelId}
use go_data_transfer.Channels.Internal.{ChannelState}
use go_data_transfer.Channels.Fsm.Table.{EventDesc}
use go_data_transfer.Channels.Fsm.Events.{channel_events}

abbrev pub cleanup_states : List Status
cleanup_states = cancelling ∷ completing ∷ failing ∷ []

abbrev pub channel_finality_states : List Status
channel_finality_states = cancelled ∷ completed ∷ failed ∷ []

abbrev pub is_channel_terminated : Status → Bool
is_channel_terminated st = contains channel_finality_states st

abbrev pub is_channel_cleaning_up : Status → Bool
is_channel_cleaning_up st = contains cleanup_states st

-- The calls that an entry function makes on the environment.
pub data EnvCall : Type 0 where
  cleanup_channel : ChannelId → EnvCall
  unprotect : Peer → ChannelId → EnvCall

-- An entry function, given `env.ID()`: its calls in order, and the event that it triggers.
abbrev pub EntryFunc : Type 0
EntryFunc = Peer → ChannelState → List EnvCall × EventCode

-- The tag of `Unprotect` is the printed channel ID; the ID stands for it.
unfoldable pub cleanup_connection : EntryFunc
cleanup_connection self channel =
    let chid : ChannelId = record {
      initiator = channel.initiator;
      responder = channel.responder;
      id = channel.transfer_id;
    } in
    let other = if channel.initiator == self then channel.responder else channel.initiator in
    (cleanup_channel chid ∷ unprotect other chid ∷ [], cleanup_complete)

unfoldable pub channel_state_entry_funcs : Status → Option EntryFunc
channel_state_entry_funcs cancelling = some cleanup_connection
channel_state_entry_funcs failing = some cleanup_connection
channel_state_entry_funcs completing = some cleanup_connection
channel_state_entry_funcs _ = none

pub record Parameters : Type 0 where
  pub events : List EventDesc
  pub state_entry_funcs : Status → Option EntryFunc
  pub finality_states : List Status

abbrev pub channel_parameters : Parameters
channel_parameters = record {
  events = channel_events;
  state_entry_funcs = channel_state_entry_funcs;
  finality_states = channel_finality_states;
}
