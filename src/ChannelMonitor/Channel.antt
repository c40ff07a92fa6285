-- ===== src/ChannelMonitor/Channel.antt =====
-- channelmonitor/channelmonitor.go: `monitoredChannel`, each part of it that runs under a lock as a
-- function, and what its subscription does with an event.
use go_data_transfer.Base.{
  ℕ, zero, suc, ◌+◌, ◌%◌, ◌^◌, Bool, true, false, ◌||◌, Option, none, some, ltb, if◌then◌else◌, not,
}
use go_data_transfer.Events.{EventCode}
use go_data_transfer.Types.{ChannelId, channel_id_eq}
use go_data_transfer.Channels.Internal.{ChannelState}
use go_data_transfer.Channels.State.{channel_id}
use go_data_transfer.Channels.Fsm.Finality.{is_channel_terminated, is_channel_cleaning_up}
use go_data_transfer.ChannelMonitor.{Config}

pub record MonitoredChannel : Type 0 where
  -- whether `restartedAt` is set
  pub restarting : Bool
  pub restart_queued : Bool
  pub consecutive_restarts : ℕ
  -- whether `cancel` is nil
  pub shut : Bool
  -- how often the manager has been asked to close the channel
  pub closes : ℕ

abbrev pub new_monitored_channel : MonitoredChannel
new_monitored_channel = record {
  restarting = false;
  restart_queued = false;
  consecutive_restarts = 0;
  shut = false;
  closes = 0;
}

-- The first locked part of `restartChannel`: whether a restart is in progress already.
abbrev pub begin_restart : MonitoredChannel → MonitoredChannel × Bool
begin_restart mc =
    if mc.restarting
    then (record mc { restart_queued = true }, true)
    else (record mc { restarting = true }, false)

-- The last locked part of `restartChannel`: whether to restart again.
abbrev pub end_restart : MonitoredChannel → MonitoredChannel × Bool
end_restart mc =
    if mc.restart_queued
    then (record mc { restarting = true; restart_queued = false }, true)
    else (record mc { restarting = false }, false)

-- The first part of `doRestartChannel`: whether there have been too many restarts. The count is an
-- `int`, that is converted to `uint32`.
abbrev pub count_restart : Config → MonitoredChannel → MonitoredChannel × Bool
count_restart cfg mc =
    let restart_count : ℕ = mc.consecutive_restarts + 1 in
    (
      record mc { consecutive_restarts = restart_count },
      ltb cfg.max_consecutive_restarts (restart_count % 2 ^ 32),
    )

abbrev pub reset_consecutive_restarts : MonitoredChannel → MonitoredChannel
reset_consecutive_restarts mc = record mc { consecutive_restarts = 0 }

-- Whether the channel has not been shut down already.
abbrev pub shutdown : MonitoredChannel → MonitoredChannel × Bool
shutdown mc = if mc.shut then (mc, false) else (record mc { shut = true }, true)

-- `doRestartChannel` while no data is sent or received. `send` is the error of `sendRestartMessage` in
-- the attempt of a number; the result is whether there have been too many, and there is none if the
-- fuel runs out.
unfoldable pub do_restart_channel :
    ℕ → Config → (ℕ → Bool) → MonitoredChannel → Option (MonitoredChannel × Bool)
do_restart_channel zero cfg fails mc = none
do_restart_channel (suc fuel) cfg fails mc =
    let (mc', too_many) = count_restart cfg mc in
    let again = do_restart_channel fuel cfg fails mc' in
    if too_many
    then some (mc', true)
    else if fails mc'.consecutive_restarts
    then again
    else some (mc', false)

pub data Reaction : Type 0 where
  ignore shut_down cancel_accept_timer restart watch_for_complete reset : Reaction

-- What the subscriber of `start` does with an event.
unfoldable pub reaction : ChannelId → EventCode → ChannelState → Reaction
reaction chid code channel_state =
    if not (channel_id_eq (channel_id channel_state) chid)
    then ignore
    else if is_channel_cleaning_up channel_state.status
        || is_channel_terminated channel_state.status
    then shut_down
    else elim code [
      | EventCode.accept ↦ cancel_accept_timer
      | EventCode.send_data_error ↦ restart
      | EventCode.receive_data_error ↦ restart
      | EventCode.finish_transfer ↦ watch_for_complete
      | EventCode.data_sent ↦ reset
      | EventCode.data_received ↦ reset
      | _ ↦ ignore
    ]
