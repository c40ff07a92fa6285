-- ===== src/ChannelMonitor/Goroutines.antt =====
-- The goroutines of a monitored channel of channelmonitor/channelmonitor.go, interleaved in any order.
use go_data_transfer.Base.{true, false, ℕ, zero, ℤ, ◌+◌, Bool, List, [], ◌∷◌, ◌==◌, if◌then◌else◌}
use go_data_transfer.ChannelMonitor.{Config}
use go_data_transfer.ChannelMonitor.Channel.{
  MonitoredChannel, new_monitored_channel, begin_restart, end_restart, count_restart,
  reset_consecutive_restarts, shutdown,
}

-- Where a goroutine is: before `restartChannel`, in its loop (before it counts, sends, or looks for a
-- queued restart), in `closeChannelAndShutdown` (before the shutdown, and before the close), before a
-- `Shutdown` of its own.
pub data Pc : Type 0 where
  idle entering counting sending finishing failing closing stopping finished : Pc

-- One step of a goroutine; `fails` is whether the restart message could not be sent.
unfoldable pub move : Config → Bool → MonitoredChannel → Pc → MonitoredChannel × Pc
move cfg fails mc idle = (mc, idle)
move cfg fails mc entering =
    let (mc', already) = begin_restart mc in (mc', if already then finished else counting)
move cfg fails mc counting =
    let (mc', too_many) = count_restart cfg mc in (mc', if too_many then failing else sending)
move cfg fails mc sending = (mc, if fails then counting else finishing)
move cfg fails mc finishing =
    let (mc', again) = end_restart mc in (mc', if again then counting else finished)
move cfg fails mc failing =
    let (mc', first) = shutdown mc in (mc', if first then closing else finished)
move cfg fails mc closing = (record mc { closes = mc.closes + 1 }, finished)
move cfg fails mc stopping = ((shutdown mc).0, finished)
move cfg fails mc finished = (mc, finished)

pub record System : Type 0 where
  pub mc : MonitoredChannel
  pub pc : ℕ → Pc

-- A goroutine runs a step; one is started, to restart, to close the channel since the timer of
-- `watchForResponderAccept` or of `watchForResponderComplete` has expired, or to shut the monitor
-- down; or data is sent or received.
pub data Action : Type 0 where
  run : ℕ → Bool → Action
  restarts accept_times_out complete_times_out stops : ℕ → Action
  data_moves : Action

abbrev pub update : (ℕ → Pc) → ℕ → Pc → ℕ → Pc
update pc i p j = if j == i then p else pc j

-- Only a goroutine that is idle is started.
abbrev pub started : Pc → Pc → Pc
started p idle = p
started p q = q

abbrev pub is_zero : ℤ → Bool
is_zero (ℤ.pos zero) = true
is_zero _ = false

-- A timeout of 0 turns the timer off.
abbrev pub after_timeout : ℤ → System → ℕ → System
after_timeout timeout s i =
    if is_zero timeout then s else record s { pc = update s.pc i (started failing (s.pc i)) }

unfoldable pub act : Config → System → Action → System
act cfg s (run i fails) =
    let (mc, p) = move cfg fails s.mc (s.pc i) in record { mc = mc; pc = update s.pc i p }
act cfg s (restarts i) = record s { pc = update s.pc i (started entering (s.pc i)) }
act cfg s (accept_times_out i) = after_timeout cfg.accept_timeout s i
act cfg s (complete_times_out i) = after_timeout cfg.complete_timeout s i
act cfg s (stops i) = record s { pc = update s.pc i (started stopping (s.pc i)) }
act cfg s data_moves = record s { mc = reset_consecutive_restarts s.mc }

abbrev pub init : System
init = record { mc = new_monitored_channel; pc = λ i. idle }

unfoldable pub run_all : Config → System → List Action → System
run_all cfg s [] = s
run_all cfg s (a ∷ rest) = run_all cfg (act cfg s a) rest
