-- ===== src/Channels/Ops/Progress/Tally.antt =====
-- One event of channels/channels.go sent to a channel in transfer, and what it leaves of its counts.
use go_data_transfer.Base.{ℕ, ℤ, ◌≡◌, refl, ◌∙◌, ap, Bool, true, false, Option, none, some, arith}
use go_data_transfer.Statuses.{Status, requested, transferring}
use go_data_transfer.Events.{
  EventCode, data_limit_exceeded, data_queued, data_queued_progress, data_received,
  data_received_progress,
}
use go_data_transfer.Types.{ChannelId}
use go_data_transfer.Errors.{ok}
use go_data_transfer.Channels.Internal.{ChannelState, add_log}
use go_data_transfer.Channels.Fsm.Table.{Target, no_change, just_record, add_u64, raise_index}
use go_data_transfer.Channels.Fsm.Finality.{is_channel_terminated, is_channel_cleaning_up}
use go_data_transfer.Channels.Fsm.Engine.{
  Args, nothing, an_index, some_bytes, documented_engine, run_action, land,
}
use go_data_transfer.Channels.Fsm.Machine.{effect, state_or}
use go_data_transfer.Channels.Fsm.Machine.Status.{moves, process_accepted, effect-status}
use go_data_transfer.Channels.Group.{Group, next_state}
use go_data_transfer.Channels.Ops.{Channels, Op, machine_send}

-- The two directions in which a data limit counts.
pub data Direction : Type 0 where
  receiving queueing : Direction

abbrev pub report_of : Direction → EventCode
report_of receiving = data_received
report_of queueing = data_queued

abbrev pub progress_of : Direction → EventCode
progress_of receiving = data_received_progress
progress_of queueing = data_queued_progress

abbrev pub index_of : Direction → ChannelState → ℤ
index_of receiving ch = ch.received_blocks_total
index_of queueing ch = ch.queued_blocks_total

abbrev pub bytes_of : Direction → ChannelState → ℕ
bytes_of receiving ch = ch.received
bytes_of queueing ch = ch.queued

-- What a report may change of a channel.
pub record Tally : Type 0 where
  pub status : Status
  pub bytes : ℕ
  pub index : ℤ
  pub data_limit : ℕ
  pub responder_paused : Bool

abbrev pub tally : Direction → ChannelState → Tally
tally d ch = record {
  status = ch.status;
  bytes = bytes_of d ch;
  index = index_of d ch;
  data_limit = ch.data_limit;
  responder_paused = ch.responder_paused;
}

pub transferring_calm :
    (s : Status)
    → transferring s ≡ true
    → (is_channel_terminated s ≡ false) × (is_channel_cleaning_up s ≡ false)
transferring_calm requested h = cc
transferring_calm _ h = ground arith

-- The three events of a report.
pub data Report : Type 0 where
  progresses : ℕ → Report
  reports : ℤ → Report
  exceeds : Report

abbrev pub code_of : Direction → Report → EventCode
code_of d (progresses delta) = progress_of d
code_of d (reports index) = report_of d
code_of d exceeds = data_limit_exceeded

abbrev pub args_of : Report → Args
args_of (progresses delta) = some_bytes delta
args_of (reports index) = an_index index
args_of exceeds = nothing

abbrev target_in_transfer : Report → Target
target_in_transfer exceeds = just_record
target_in_transfer _ = no_change

-- What each leaves of the counts.
abbrev pub count : Report → Tally → Tally
count (progresses delta) t = record t { bytes = add_u64 t.bytes delta }
count (reports index) t = record t { index = raise_index index t.index }
count exceeds t = record t { responder_paused = true }

report_moves :
    (s : Status) (d : Direction) (r : Report)
    → transferring s ≡ true
    → moves (code_of d r) s ≡ some (target_in_transfer r)
unfolding moves
report_moves s receiving r h = ground arith
report_moves s queueing r h = ground arith

abbrev acted : Direction → Report → ℕ → ChannelState → Option ChannelState
acted d r now ch = effect (code_of d r) (args_of r) now ch

acted-tally :
    (d : Direction) (r : Report) (now : ℕ) (ch : ChannelState)
    → (ch' : ChannelState) × (acted d r now ch ≡ some ch') × (tally d ch' ≡ count r (tally d ch))
unfolding effect run_action add_log
acted-tally receiving (progresses delta) now ch = (_, refl, refl)
acted-tally receiving (reports index) now ch = (_, refl, refl)
acted-tally receiving exceeds now ch = (_, refl, refl)
acted-tally queueing (progresses delta) now ch = (_, refl, refl)
acted-tally queueing (reports index) now ch = (_, refl, refl)
acted-tally queueing exceeds now ch = (_, refl, refl)

land_in_transfer : (r : Report) (ch : ChannelState) → (land (target_in_transfer r) ch).0 ≡ ch
unfolding land
land_in_transfer (progresses delta) ch = refl
land_in_transfer (reports index) ch = refl
land_in_transfer exceeds ch = refl

-- An operation that ends without an error, leaves the caches, and has `ch'` stored for the channel.
pub record Ends (g : Group) (chid : ChannelId) (m : Op g) (c : Channels g) (ch' : ChannelState)
    : Type 0 where
  pub no_error : (m c).1 ≡ none
  pub now_stored : g.get_sync (m c).0.store chid ≡ ok ch'
  pub same_indexes : (m c).0.block_index_cache ≡ c.block_index_cache
  pub same_progress : (m c).0.progress_cache ≡ c.progress_cache

module _ (g : Group) (chid : ChannelId) (d : Direction) where
  -- In transfer, each event of a report is taken, and does what `count` says to the counts.
  pub send-tally :
      (r : Report) (c : Channels g) (ch : ChannelState)
      → g.get_sync c.store chid ≡ ok ch
      → transferring ch.status ≡ true
      → (ch' : ChannelState) × Ends g chid (machine_send g chid (code_of d r) (args_of r)) c ch'
        × (tally d ch' ≡ count r (tally d ch))
  unfolding machine_send
  send-tally r c ch st tr =
      let now : ℕ = g.clock c.store in
      let (ch', ef, counts) = acted-tally d r now ch in
      let (live, calm) = transferring_calm ch.status tr in
      let next : next_state now (code_of d r) (args_of r) ch ≡ ch' =
        ap (state_or ch) (
          process_accepted documented_engine ch
            (record { code = code_of d r; args = args_of r; now = now }) (target_in_transfer r) ch'
            live (report_moves ch.status d r tr) ef)
        ∙ land_in_transfer r ch' in
      let quiet : is_channel_cleaning_up (next_state now (code_of d r) (args_of r) ch).status
          ≡ false =
        ap (λ (x : ChannelState). is_channel_cleaning_up x.status) next
        ∙ ap is_channel_cleaning_up (effect-status (code_of d r) (args_of r) now ch ch' ef)
        ∙ calm in
      (
        ch',
        record {
          no_error = g.send_accepts c.store chid (code_of d r) (args_of r) ch ch' st live ef;
          now_stored =
              g.get_sync-send c.store chid (code_of d r) (args_of r) ch st live quiet ∙ ap ok next;
          same_indexes = refl;
          same_progress = refl;
        },
        counts,
      )
