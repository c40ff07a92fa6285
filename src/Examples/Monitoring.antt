-- ===== src/Examples/Monitoring.antt =====
-- A monitored channel whose restart fails twice, and goroutines that restart and close it at once.
use go_data_transfer.Base.{ℕ, ℤ, ◌≡◌, refl, arith, Bool, false, List, [], ◌∷◌, some, ltb}
use go_data_transfer.ChannelMonitor.{Config}
use go_data_transfer.ChannelMonitor.Channel.{
  MonitoredChannel, new_monitored_channel, do_restart_channel,
}
use go_data_transfer.ChannelMonitor.Attempts.{Attempted, do_restart_channel_within}
use go_data_transfer.ChannelMonitor.Goroutines.{
  Action, run, restarts, accept_times_out, stops, data_moves, init, run_all,
}
use go_data_transfer.ChannelMonitor.Orderly.{Orderly, run_all-Orderly}
use go_data_transfer.ChannelMonitor.Served.{owed_after, Served, run_all-Served}

abbrev three_restarts : Config
three_restarts = record {
  accept_timeout = ℤ.pos 10;
  restart_debounce = ℤ.pos 1;
  restart_backoff = ℤ.pos 1;
  max_consecutive_restarts = 3;
  complete_timeout = ℤ.pos 10;
}

-- The first two messages cannot be sent.
abbrev fails_twice : ℕ → Bool
fails_twice n = ltb n 3

do_restart_channel_within_example :
    (r : MonitoredChannel × Bool) × (do_restart_channel 4 three_restarts fails_twice
        new_monitored_channel
      ≡ some r)
    × Attempted three_restarts fails_twice new_monitored_channel r
do_restart_channel_within_example =
    do_restart_channel_within 3 three_restarts fails_twice new_monitored_channel (omega arith) refl

third_attempt :
    do_restart_channel 4 three_restarts fails_twice new_monitored_channel
    ≡ some (record new_monitored_channel { consecutive_restarts = 3 }, false)
unfolding do_restart_channel
third_attempt = refl

-- Two restarts, the second of which is queued, and a timer that expires while the first sends.
abbrev crowded : List Action
crowded =
    restarts 0
    ∷ restarts 1
    ∷ run 0 false
    ∷ run 1 false
    ∷ run 0 false
    ∷ accept_times_out 2
    ∷ run 2 false
    ∷ run 0 false
    ∷ run 0 false
    ∷ data_moves
    ∷ run 2 false
    ∷ stops 3
    ∷ run 3 false
    ∷ []

run_all-Orderly_example : Orderly (run_all three_restarts init crowded)
run_all-Orderly_example = run_all-Orderly three_restarts crowded

run_all-Served_example :
    Served three_restarts
      (owed_after three_restarts init crowded false)
      (run_all three_restarts init crowded)
run_all-Served_example = run_all-Served three_restarts crowded
