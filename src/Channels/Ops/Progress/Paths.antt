-- ===== src/Channels/Ops/Progress/Paths.antt =====
-- DataReceived and DataQueued of channels/channels.go in the direction of a report, and the three ways
-- through `checkEvents`.
use go_data_transfer.Base.{
  ℕ, ℤ, ◌≡◌, refl, ap, Bool, true, false, Option, none, some, if◌then◌else◌,
}
use go_data_transfer.Events.{EventCode}
use go_data_transfer.Types.{ChannelId, Cid}
use go_data_transfer.Errors.{Err, Result, ok}
use go_data_transfer.Channels.Internal.{ChannelState}
use go_data_transfer.Channels.Fsm.Table.{add_u64}
use go_data_transfer.Channels.Caches.{
  ProgressState, ReadIndexFn, ReadProgressFn, update_if_greater, add_progress, BlockIndexCache,
  ProgressCache,
}
use go_data_transfer.Channels.Caches.Updates.{Agrees}
use go_data_transfer.Channels.Group.{Group}
use go_data_transfer.Channels.Ops.{Channels, Op, get_by_id, check_channel_exists}
use go_data_transfer.Channels.Ops.Progress.{
  fire_events, fire_progress_event, check_events, check_limit, get_received_index, get_queued_index,
  get_received_progress, get_queued_progress, data_received, data_queued,
}
use go_data_transfer.Channels.Ops.Progress.Tally.{
  Direction, receiving, queueing, report_of, progress_of, index_of, bytes_of, Tally, tally,
}
use go_data_transfer.Channels.Ops.Progress.Reports.{counted}

abbrev pub state_of : Direction → ChannelState → ProgressState
state_of d ch = record { data_limit = ch.data_limit; progress = bytes_of d ch }

pub some-eq : {a b : ProgressState} → some a ≡ some b → a ≡ b
some-eq h = cc

abbrev pub limited : Tally → ProgressState
limited t = record { data_limit = t.data_limit; progress = t.bytes }

pub counted-limited :
    (paused progress : Bool) (delta : ℕ) (index : ℤ) (t : Tally)
    → limited (counted (paused, progress) delta index t) ≡ record {
      data_limit = t.data_limit;
      progress = if progress then add_u64 t.bytes delta else t.bytes;
    }
counted-limited false false delta index t = refl
counted-limited false true delta index t = refl
counted-limited true false delta index t = refl
counted-limited true true delta index t = refl

module _ (g : Group) where
  -- The operation of each direction.
  abbrev pub report : Direction → ChannelId → Cid → ℕ → ℤ → Bool → Op g
  report receiving = data_received g
  report queueing = data_queued g

  abbrev pub read_index : Direction → Channels g → ReadIndexFn
  read_index receiving = get_received_index g
  read_index queueing = get_queued_index g

  abbrev pub read_progress : Direction → Channels g → ReadProgressFn
  read_progress receiving = get_received_progress g
  read_progress queueing = get_queued_progress g

  abbrev pub fire : Direction → ChannelId → ℕ → ℤ → Bool → Op g
  fire d chid delta index unique c =
      fire_progress_event g chid (report_of d) (progress_of d) delta index unique (read_index d c)
        (some (read_progress d c)) c

  pub report_lem :
      (d : Direction) (chid : ChannelId) (k : Cid) (delta : ℕ) (index : ℤ) (unique : Bool)
      (c : Channels g)
      → report d chid k delta index unique c ≡ fire d chid delta index unique c
  unfolding data_received data_queued
  report_lem receiving chid k delta index unique c = refl
  report_lem queueing chid k delta index unique c = refl

  get_by_id-ok :
      (chid : ChannelId) (c : Channels g) (ch : ChannelState)
      → g.get_sync c.store chid ≡ ok ch
      → get_by_id g c chid ≡ ok ch
  unfolding get_by_id
  get_by_id-ok chid c ch st = rw (st, get_by_id)

  pub reads :
      (d : Direction) (chid : ChannelId) (c : Channels g) (ch : ChannelState)
      → g.get_sync c.store chid ≡ ok ch
      → (read_index d c chid ≡ ok (index_of d ch)) × (read_progress d c chid ≡ ok (state_of d ch))
  unfolding get_received_index get_queued_index get_received_progress get_queued_progress
  reads receiving chid c ch st = rw (get_by_id-ok chid c ch st) (refl, refl)
  reads queueing chid c ch st = rw (get_by_id-ok chid c ch st) (refl, refl)

  pub exists :
      (chid : ChannelId) (c : Channels g) (ch : ChannelState) (evt : EventCode)
      → g.get_sync c.store chid ≡ ok ch
      → check_channel_exists g c chid evt ≡ none
  unfolding check_channel_exists
  exists chid c ch evt st = rw (g.has-get_sync c.store chid ch st, check_channel_exists)

  -- What a report has come to: the error, the stored counts, and what is cached.
  pub record Outcome (d : Direction) (chid : ChannelId) (r : Channels g × Option Err)
      (e : Option Err) (t : Tally) : Type 0 where
    pub error : r.1 ≡ e
    pub state : ChannelState
    pub now_stored : g.get_sync r.0.store chid ≡ ok state
    pub counts : tally d state ≡ t
    pub agrees : Agrees r.0.progress_cache chid (state_of d state)

  pub fire-flags :
      (d : Direction) (chid : ChannelId) (delta : ℕ) (index : ℤ) (unique : Bool) (c c' : Channels g)
      (flags : Bool × Bool)
      → check_channel_exists g c chid (report_of d) ≡ none
      → check_events g chid
          (report_of d)
          delta
          index
          unique
          (read_index d c)
          (some (read_progress d c))
          c
        ≡ (c', ok flags)
      → fire d chid delta index unique c
        ≡ fire_events g chid (report_of d) (progress_of d) delta index flags c'
  unfolding fire_progress_event
  fire-flags d chid delta index unique c c' flags a b =
      rw (a, b, fire_progress_event)
        (ap (λ r. fire_events g chid (report_of d) (progress_of d) delta index flags r.0) b)

  -- The three ways through `checkEvents`.
  pub check-repeated :
      (d : Direction) (chid : ChannelId) (delta : ℕ) (index : ℤ) (c : Channels g)
      → check_events g chid
          (report_of d)
          delta
          index
          false
          (read_index d c)
          (some (read_progress d c))
          c
        ≡ (c, ok (false, false))
  unfolding check_events
  check-repeated d chid delta index c = refl

  abbrev pub updated : Direction → ChannelId → ℤ → Channels g → BlockIndexCache × Result Bool
  updated d chid index c =
      update_if_greater c.block_index_cache (report_of d) chid index (read_index d c)

  abbrev pub added : Direction → ChannelId → ℕ → Channels g → ProgressCache × Result Bool
  added d chid delta c = add_progress c.progress_cache chid delta (read_progress d c)

  pub check-old :
      (d : Direction) (chid : ChannelId) (delta : ℕ) (index : ℤ) (c : Channels g)
      → (updated d chid index c).1 ≡ ok false
      → check_events g chid
          (report_of d)
          delta
          index
          true
          (read_index d c)
          (some (read_progress d c))
          c
        ≡ (record c { block_index_cache = (updated d chid index c).0 }, ok (false, false))
  unfolding check_events
  check-old d chid delta index c u = rw (u, check_events)

  pub check-new :
      (d : Direction) (chid : ChannelId) (delta : ℕ) (index : ℤ) (c : Channels g) (paused : Bool)
      → (updated d chid index c).1 ≡ ok true
      → (added d chid delta c).1 ≡ ok paused
      → check_events g chid
          (report_of d)
          delta
          index
          true
          (read_index d c)
          (some (read_progress d c))
          c
        ≡ (
          record c {
            block_index_cache = (updated d chid index c).0;
            progress_cache = (added d chid delta c).0;
          },
          ok (paused, true),
        )
  unfolding check_events check_limit
  check-new d chid delta index c paused u a = rw (u, a, check_events)
