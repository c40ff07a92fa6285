-- ===== src/Channels/Ops/Progress.antt =====
-- The reports of blocks in channels/channels.go: DataQueued, DataSent and DataReceived.
pub mod Tally
pub mod Reports
pub mod Paths
pub mod Limits
use go_data_transfer.Base.{ℕ, ℤ, Bool, true, false, not, Option, none, some, if◌then◌else◌}
use go_data_transfer.Events.{EventCode, data_limit_exceeded}
use go_data_transfer.Types.{Cid, ChannelId}
use go_data_transfer.Errors.{Result, ok, err, pause}
use go_data_transfer.Channels.Internal.{ChannelState}
use go_data_transfer.Channels.Fsm.Engine.{nothing, an_index, some_bytes}
use go_data_transfer.Channels.Caches.{ReadIndexFn, ReadProgressFn, update_if_greater, add_progress}
use go_data_transfer.Channels.Group.{Group}
use go_data_transfer.Channels.Ops.{
  Channels, Op, when, fail, get_by_id, check_channel_exists, machine_send, ◌>>◌,
}

abbrev pub read_field {ℓ} : {A : Type ℓ} → (ChannelState → A) → Result ChannelState → Result A
read_field f (err e) = err e
read_field f (ok ch) = ok (f ch)

module _ (g : Group) where
  unfoldable pub get_queued_index : Channels g → ReadIndexFn
  get_queued_index c chid = read_field (λ ch. ch.queued_blocks_total) (get_by_id g c chid)

  unfoldable pub get_received_index : Channels g → ReadIndexFn
  get_received_index c chid = read_field (λ ch. ch.received_blocks_total) (get_by_id g c chid)

  unfoldable pub get_sent_index : Channels g → ReadIndexFn
  get_sent_index c chid = read_field (λ ch. ch.sent_blocks_total) (get_by_id g c chid)

  unfoldable pub get_queued_progress : Channels g → ReadProgressFn
  get_queued_progress c chid =
      read_field (λ ch. record { data_limit = ch.data_limit; progress = ch.queued })
        (get_by_id g c chid)

  unfoldable pub get_received_progress : Channels g → ReadProgressFn
  get_received_progress c chid =
      read_field (λ ch. record { data_limit = ch.data_limit; progress = ch.received })
        (get_by_id g c chid)

  -- The second half of `checkEvents`, when data progress is made: the pause flag.
  unfoldable pub check_limit :
      ChannelId → ℕ → Option ReadProgressFn → Channels g → Channels g × Result Bool
  check_limit chid delta none c = (c, ok false)
  check_limit chid delta (some read_progress) c =
      let (values, r) = add_progress c.progress_cache chid delta read_progress in
      (record c { progress_cache = values }, r)

  -- The result is whether to pause and whether there is progress.
  unfoldable pub check_events :
      ChannelId
      → EventCode
      → ℕ
      → ℤ
      → Bool
      → ReadIndexFn
      → Option ReadProgressFn
      → Channels g
      → Channels g × Result (Bool × Bool)
  check_events chid evt delta index unique read_from_original read_progress c =
      if not unique
      then (c, ok (false, false))
      else let (values, r) =
          update_if_greater c.block_index_cache evt chid index read_from_original in
        let c' : Channels g = record c { block_index_cache = values } in
        elim r [
          | err e ↦ (c', err e)
          | ok progress ↦
              if not progress
              then (c', ok (false, false))
              else let (c'', limit) = check_limit chid delta read_progress c' in
                elim limit [ err e ↦ (c'', err e) | ok paused ↦ (c'', ok (paused, true)) ]
        ]

  -- The events of one report, in the order in which they are fired.
  unfoldable pub fire_events : ChannelId → EventCode → EventCode → ℕ → ℤ → Bool × Bool → Op g
  fire_events chid evt progress_evt delta index (paused, progress) = do
    when progress (machine_send g chid progress_evt (some_bytes delta))
    machine_send g chid evt (an_index index)
    when paused (machine_send g chid data_limit_exceeded nothing >> fail pause)

  unfoldable pub fire_progress_event :
      ChannelId → EventCode → EventCode → ℕ → ℤ → Bool → ReadIndexFn → Option ReadProgressFn → Op g
  fire_progress_event chid evt progress_evt delta index unique read_from_original read_progress c =
      elim (check_channel_exists g c chid evt) [
        | some e ↦ (c, some e)
        | none ↦
            let (c', r) =
              check_events chid evt delta index unique read_from_original read_progress c in
            elim r [
              | err e ↦ (c', some e)
              | ok flags ↦ fire_events chid evt progress_evt delta index flags c'
            ]
      ]

  unfoldable pub data_sent : ChannelId → Cid → ℕ → ℤ → Bool → Op g
  data_sent chid k delta index unique c =
      fire_progress_event chid EventCode.data_sent EventCode.data_sent_progress delta index unique
        (get_sent_index c) none c

  unfoldable pub data_queued : ChannelId → Cid → ℕ → ℤ → Bool → Op g
  data_queued chid k delta index unique c =
      fire_progress_event chid EventCode.data_queued EventCode.data_queued_progress delta index
        unique (get_queued_index c) (some (get_queued_progress c)) c

  unfoldable pub data_received : ChannelId → Cid → ℕ → ℤ → Bool → Op g
  data_received chid k delta index unique c =
      fire_progress_event chid EventCode.data_received EventCode.data_received_progress delta index
        unique (get_received_index c) (some (get_received_progress c)) c
