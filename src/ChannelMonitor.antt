-- ===== src/ChannelMonitor.antt =====
-- channelmonitor/channelmonitor.go: the set of the channels that are watched.
pub mod Channel
pub mod Goroutines
pub mod Exclusion
pub mod Closing
pub mod Orderly
pub mod Serving
pub mod Served
pub mod Attempts
use go_data_transfer.Base.{
  ℕ, ℤ, Bool, true, false, not, ◌||◌, ◌==◌, List, [], ◌∷◌, Option, none, some, if◌then◌else◌,
}
use go_data_transfer.Types.{ChannelId, channel_id_eq}

-- Durations are numbers of nanoseconds. `OnRestartComplete` is left out.
pub record Config : Type 0 where
  pub accept_timeout : ℤ
  pub restart_debounce : ℤ
  pub restart_backoff : ℤ
  -- uint32
  pub max_consecutive_restarts : ℕ
  pub complete_timeout : ℤ

-- Without a configuration nothing is watched.
pub record Monitor : Type 0 where
  pub cfg : Option Config
  pub channels : List ChannelId

abbrev negative : ℤ → Bool
negative (ℤ.pos n) = false
negative (ℤ.negsuc n) = true

-- Whether `checkConfig` does not panic.
abbrev pub check_config : Option Config → Bool
check_config none = true
check_config (some cfg) = not (
    negative cfg.accept_timeout
    || cfg.max_consecutive_restarts == 0
    || negative cfg.complete_timeout)

-- `none` is a panic.
abbrev pub new_monitor : Option Config → Option Monitor
new_monitor cfg = if check_config cfg then some (record { cfg = cfg; channels = [] }) else none

abbrev pub watches : List ChannelId → ChannelId → Bool
watches [] chid = false
watches (c ∷ cs) chid = channel_id_eq c chid || watches cs chid

-- The result says whether a monitored channel was made.
unfoldable pub add_channel : Monitor → ChannelId → Monitor × Bool
add_channel m chid = elim m.cfg [
  | none ↦ (m, false)
  | some cfg ↦
      if watches m.channels chid
      then (m, false)
      else (record m { channels = chid ∷ m.channels }, true)
]

abbrev forget : ChannelId → List ChannelId → List ChannelId
forget chid [] = []
forget chid (c ∷ cs) = if channel_id_eq c chid then forget chid cs else c ∷ forget chid cs

unfoldable pub on_monitored_channel_shutdown : Monitor → ChannelId → Monitor
on_monitored_channel_shutdown m chid = record m { channels = forget chid m.channels }
