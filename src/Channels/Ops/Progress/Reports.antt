-- ===== src/Channels/Ops/Progress/Reports.antt =====
-- What a report of a block does as a whole: `fireProgressEvent` of channels/channels.go, with the
-- caches that it consults.
use go_data_transfer.Base.{
  ℕ, ℤ, ◌≡◌, refl, ◌∙◌, ap, Bool, true, false, Option, none, some, if◌then◌else◌,
}
use go_data_transfer.Statuses.{transferring}
use go_data_transfer.Events.{data_limit_exceeded}
use go_data_transfer.Types.{ChannelId}
use go_data_transfer.Errors.{Err, ok, pause}
use go_data_transfer.Channels.Internal.{ChannelState}
use go_data_transfer.Channels.Fsm.Engine.{nothing}
use go_data_transfer.Channels.Group.{Group}
use go_data_transfer.Channels.Ops.{Channels, Op, when, fail, machine_send, ◌>>◌, proceed-none}
use go_data_transfer.Channels.Ops.Progress.{fire_events}
use go_data_transfer.Channels.Ops.Progress.Tally.{
  Direction, report_of, progress_of, Tally, tally, Report, progresses, reports, exceeds, code_of,
  args_of, count, send-tally,
}

-- What a report of `delta` bytes at `index` leaves of the counts, if it makes progress or not and
-- pauses or not.
abbrev pub counted : Bool × Bool → ℕ → ℤ → Tally → Tally
counted (paused, progress) delta index t =
    let t₁ : Tally = if progress then count (progresses delta) t else t in
    let t₂ : Tally = count (reports index) t₁ in if paused then count exceeds t₂ else t₂

-- The end of an operation with an error or none.
pub record Reported (g : Group) (chid : ChannelId) (r : Channels g × Option Err) (c : Channels g)
    (e : Option Err) (ch' : ChannelState) : Type 0 where
  pub error : r.1 ≡ e
  pub now_stored : g.get_sync r.0.store chid ≡ ok ch'
  pub same_indexes : r.0.block_index_cache ≡ c.block_index_cache
  pub same_progress : r.0.progress_cache ≡ c.progress_cache

module _ (g : Group) (chid : ChannelId) (d : Direction) where
  abbrev now_send : Report → Op g
  now_send r = machine_send g chid (code_of d r) (args_of r)

  still_transferring :
      (ch ch' : ChannelState) (t : Tally)
      → tally d ch' ≡ t
      → t.status ≡ ch.status
      → transferring ch.status ≡ true
      → transferring ch'.status ≡ true
  still_transferring ch ch' t e s tr = ap transferring (ap (λ (x : Tally). x.status) e ∙ s) ∙ tr

  -- The report itself, and the pause behind it.
  fire_last :
      (paused : Bool) (index : ℤ) (c : Channels g) (ch : ChannelState)
      → g.get_sync c.store chid ≡ ok ch
      → transferring ch.status ≡ true
      → (ch' : ChannelState) × Reported g chid
          ((now_send (reports index)
              >> when paused (machine_send g chid data_limit_exceeded nothing >> fail pause))
            c)
          c
          (if paused then some pause else none)
          ch'
        × (tally d ch' ≡ (
            if paused
            then count exceeds (count (reports index) (tally d ch))
            else count (reports index) (tally d ch)))
  fire_last false index c ch st tr =
      let (ch₁, s₁, t₁) = send-tally g chid d (reports index) c ch st tr in
      (
        ch₁,
        rw (proceed-none (when false (fail pause)) (now_send (reports index) c) s₁.no_error)
            (record {
              error = refl;
              now_stored = s₁.now_stored;
              same_indexes = s₁.same_indexes;
              same_progress = s₁.same_progress;
            }),
        t₁,
      )
  fire_last true index c ch st tr =
      let (ch₁, s₁, t₁) = send-tally g chid d (reports index) c ch st tr in
      let c₁ : Channels g = (now_send (reports index) c).0 in
      let tr₁ : transferring ch₁.status ≡ true = still_transferring ch ch₁ _ t₁ refl tr in
      let (ch₂, s₂, t₂) = send-tally g chid d exceeds c₁ ch₁ s₁.now_stored tr₁ in
      (
        ch₂,
        rw
            (
              proceed-none (machine_send g chid data_limit_exceeded nothing >> fail pause)
                  (now_send (reports index) c) s₁.no_error,
              proceed-none (fail pause) (now_send exceeds c₁) s₂.no_error,
            )
            (record {
              error = refl;
              now_stored = s₂.now_stored;
              same_indexes = s₂.same_indexes ∙ s₁.same_indexes;
              same_progress = s₂.same_progress ∙ s₁.same_progress;
            }),
        t₂ ∙ ap (count exceeds) t₁,
      )

  -- All that a report fires, in transfer: no event is refused, the counts are as `counted` says, and
  -- the error is the pause if the report pauses.
  pub fire_events-counted :
      (flags : Bool × Bool) (delta : ℕ) (index : ℤ) (c : Channels g) (ch : ChannelState)
      → g.get_sync c.store chid ≡ ok ch
      → transferring ch.status ≡ true
      → (ch' : ChannelState) × Reported g chid
          (fire_events g chid (report_of d) (progress_of d) delta index flags c)
          c
          (if flags.0 then some pause else none)
          ch'
        × (tally d ch' ≡ counted flags delta index (tally d ch))
  unfolding fire_events
  fire_events-counted (paused, false) delta index c ch st tr = fire_last paused index c ch st tr
  fire_events-counted (paused, true) delta index c ch st tr =
      let (ch₁, s₁, t₁) = send-tally g chid d (progresses delta) c ch st tr in
      let c₁ : Channels g = (now_send (progresses delta) c).0 in
      let tr₁ : transferring ch₁.status ≡ true = still_transferring ch ch₁ _ t₁ refl tr in
      let (ch₂, s₂, t₂) = fire_last paused index c₁ ch₁ s₁.now_stored tr₁ in
      (
        ch₂,
        rw
            (proceed-none
              (now_send (reports index)
                >> when paused (machine_send g chid data_limit_exceeded nothing >> fail pause))
              (now_send (progresses delta) c) s₁.no_error)
            (record {
              error = s₂.error;
              now_stored = s₂.now_stored;
              same_indexes = s₂.same_indexes ∙ s₁.same_indexes;
              same_progress = s₂.same_progress ∙ s₁.same_progress;
            }),
        t₂
            ∙ ap
                (λ t.
                  if paused
                  then count exceeds (count (reports index) t)
                  else count (reports index) t)
                t₁,
      )
