-- ===== src/Channels/Ops/Progress/Limits.antt =====
-- DataReceived and DataQueued of channels/channels.go as a whole, with the caches that they consult.
use go_data_transfer.Base.{
  ℕ, ℤ, ◌≡◌, sym, ◌∙◌, ap, Bool, true, false, not, ◌&&◌, none, some, if◌then◌else◌, Bool-cases, inl,
  inr, leb_ℤ,
}
use go_data_transfer.Statuses.{transferring}
use go_data_transfer.Types.{ChannelId, Cid}
use go_data_transfer.Errors.{ok, pause}
use go_data_transfer.Channels.Internal.{ChannelState}
use go_data_transfer.Channels.Fsm.Table.{add_u64}
use go_data_transfer.Channels.Caches.{ProgressState, past_limit}
use go_data_transfer.Channels.Caches.Updates.{
  known_or, Agrees, update_if_greater-known, add_progress-known,
}
use go_data_transfer.Channels.Group.{Group}
use go_data_transfer.Channels.Ops.{Channels, check_channel_exists}
use go_data_transfer.Channels.Ops.Progress.{check_events}
use go_data_transfer.Channels.Ops.Progress.Tally.{Direction, report_of, index_of, bytes_of, tally}
use go_data_transfer.Channels.Ops.Progress.Reports.{counted, fire_events-counted}
use go_data_transfer.Channels.Ops.Progress.Paths.{
  state_of, some-eq, limited, counted-limited, report, read_index, read_progress, fire, report_lem,
  reads, exists, Outcome, fire-flags, check-repeated, check-old, check-new, updated, added,
}

module _ (g : Group) where
  -- What firing the events of a report comes to, once its flags are known.
  fired :
      (d : Direction) (chid : ChannelId) (delta : ℕ) (index : ℤ) (unique : Bool) (c c' : Channels g)
      (flags : Bool × Bool) (ch : ChannelState)
      → check_channel_exists g c chid (report_of d) ≡ none
      → check_events g chid
          (report_of d)
          delta
          index
          unique
          (read_index g d c)
          (some (read_progress g d c))
          c
        ≡ (c', ok flags)
      → g.get_sync c'.store chid ≡ ok ch
      → transferring ch.status ≡ true
      → ((v : ProgressState)
          → c'.progress_cache chid ≡ some v
          → v ≡ limited (counted flags delta index (tally d ch)))
      → Outcome g d chid
          (fire g d chid delta index unique c)
          (if flags.0 then some pause else none)
          (counted flags delta index (tally d ch))
  fired d chid delta index unique c c' flags ch a b st tr agree =
      let (ch', r, t) = fire_events-counted g chid d flags delta index c' ch st tr in
      rw (fire-flags g d chid delta index unique c c' flags a b) (record {
        error = r.error;
        state = ch';
        now_stored = r.now_stored;
        counts = t;
        agrees = λ v e. agree v (ap (λ p. p chid) (sym r.same_progress) ∙ e) ∙ sym (ap limited t);
      })

  -- Any report on a channel in transfer, with a progress cache that agrees with the store. The report
  -- makes progress if the block is new and its index is above the known one. It pauses if it makes
  -- progress and the bytes then reach a limit other than 0.
  pub report-Outcome :
      (d : Direction) (chid : ChannelId) (k : Cid) (delta : ℕ) (index : ℤ) (unique : Bool)
      (c : Channels g) (ch : ChannelState)
      → g.get_sync c.store chid ≡ ok ch
      → transferring ch.status ≡ true
      → Agrees c.progress_cache chid (state_of d ch)
      → let known = known_or (c.block_index_cache (report_of d) chid) (index_of d ch) in
        let progress = unique && not (leb_ℤ index known) in
        let paused = progress && past_limit ch.data_limit (add_u64 (bytes_of d ch) delta) in
        Outcome g d chid
          (report g d chid k delta index unique c)
          (if paused then some pause else none)
          (counted (paused, progress) delta index (tally d ch))
  report-Outcome d chid k delta index false c ch st in_transfer agree =
      rw (report_lem g d chid k delta index false c) (
        fired d chid delta index false c c (false, false) ch (exists g chid c ch (report_of d) st)
          (check-repeated g d chid delta index c) st in_transfer agree)
  report-Outcome d chid k delta index true c ch st in_transfer agree =
      rw (report_lem g d chid k delta index true c) (elim (Bool-cases (leb_ℤ index known)) [
        | inl old ↦ rw old (
            fired d chid delta index true c
              (record c { block_index_cache = (updated g d chid index c).0 }) (false, false) ch
              there (check-old g d chid delta index c (answer ∙ ap (λ b. ok (not b)) old)) st
              in_transfer agree)
        | inr new ↦ rw new (
            fired d chid delta index true c
              (record c {
                block_index_cache = (updated g d chid index c).0;
                progress_cache = (added g d chid delta c).0;
              })
              (paused, true) ch there
              (check-new g d chid delta index c paused (answer ∙ ap (λ b. ok (not b)) new) total.0)
              st in_transfer
              (λ v e.
                some-eq (sym e ∙ total.1)
                ∙ sym (counted-limited paused true delta index (tally d ch))))
      ])
    where
      known : ℤ
      known = known_or (c.block_index_cache (report_of d) chid) (index_of d ch)

      paused : Bool
      paused = past_limit ch.data_limit (add_u64 (bytes_of d ch) delta)

      there : check_channel_exists g c chid (report_of d) ≡ none
      there = exists g chid c ch (report_of d) st

      answer : (updated g d chid index c).1 ≡ ok (not (leb_ℤ index known))
      answer =
          (update_if_greater-known c.block_index_cache (report_of d) chid index (read_index g d c)
            (index_of d ch) (reads g d chid c ch st).0).0

      total :
          ((added g d chid delta c).1 ≡ ok paused)
          × ((added g d chid delta c).0 chid
              ≡ some
                  (record { data_limit = ch.data_limit; progress = add_u64 (bytes_of d ch) delta }))
      total =
          add_progress-known c.progress_cache chid delta (read_progress g d c) (state_of d ch)
            (reads g d chid c ch st).1 agree
