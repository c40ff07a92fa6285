-- ===== src/Channels/Fsm/Machine/Resting.antt =====
-- The event that an entry function of channels/channels_fsm.go triggers is the last one.
use go_data_transfer.Base.{◌≡◌, ◌⊎◌, true, List, [], none}
use go_data_transfer.Channels.Internal.{ChannelState}
use go_data_transfer.Channels.Fsm.Finality.{
  EnvCall, channel_state_entry_funcs, is_channel_terminated,
}
use go_data_transfer.Channels.Fsm.Engine.{Engine}

-- No call was made, or the channel is over, in a status without an entry function.
abbrev pub Rests : ChannelState × List EnvCall → Type 0
Rests (ch, calls) =
    (calls ≡ [])
    ⊎ ((is_channel_terminated ch.status ≡ true) × (channel_state_entry_funcs ch.status ≡ none))
