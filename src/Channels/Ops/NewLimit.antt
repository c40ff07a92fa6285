-- ===== src/Channels/Ops/NewLimit.antt =====
-- A new data limit: the store and the cache of channels/channels.go after `SetDataLimit`.
use go_data_transfer.Base.{
  ◌≡◌, refl, sym, ap, ◌∙◌, arith, ℕ, true, false, none, some, Option-cases, inl, inr,
}
use go_data_transfer.Statuses.{Status, transferring}
use go_data_transfer.Events.{EventCode}
use go_data_transfer.Types.{ChannelId}
use go_data_transfer.Errors.{ok}
use go_data_transfer.Channels.Internal.{ChannelState, add_log}
use go_data_transfer.Channels.Fsm.Table.{just_record}
use go_data_transfer.Channels.Fsm.Finality.{is_channel_terminated}
use go_data_transfer.Channels.Fsm.Engine.{some_bytes, run_action, land}
use go_data_transfer.Channels.Fsm.Machine.{effect}
use go_data_transfer.Channels.Fsm.Machine.Status.{moves}
use go_data_transfer.Channels.Caches.{
  ProgressCache, ProgressState, cache_data_limit, set_progress_self,
}
use go_data_transfer.Channels.Caches.Updates.{Agrees}
use go_data_transfer.Channels.Group.{Group}
use go_data_transfer.Channels.Ops.{Channels, set_data_limit}
use go_data_transfer.Channels.Ops.Taking.{send-land, send-progress_cache}
use go_data_transfer.Channels.Ops.Progress.Tally.{Direction, receiving, queueing, transferring_calm}
use go_data_transfer.Channels.Ops.Progress.Paths.{state_of}

-- The state with the new limit.
abbrev pub limited_to : ℕ → ℕ → ChannelState → ChannelState
limited_to now l ch = add_log now "" (record ch { data_limit = l })

moves-set_data_limit :
    (s : Status)
    → is_channel_terminated s ≡ false
    → moves EventCode.set_data_limit s ≡ some just_record
unfolding moves
moves-set_data_limit s h = ground arith

effect-set_data_limit :
    (now l : ℕ) (ch : ChannelState)
    → effect EventCode.set_data_limit (some_bytes l) now ch ≡ some (limited_to now l ch)
unfolding effect run_action
effect-set_data_limit now l ch = refl

limited_to-views :
    (d : Direction) (now l : ℕ) (ch : ChannelState)
    → ((limited_to now l ch).status ≡ ch.status)
      × (state_of d (limited_to now l ch) ≡ record (state_of d ch) { data_limit = l })
unfolding add_log
limited_to-views receiving now l ch = (refl, refl)
limited_to-views queueing now l ch = (refl, refl)

cache_data_limit-absent :
    (values : ProgressCache) (chid : ChannelId) (l : ℕ)
    → values chid ≡ none
    → cache_data_limit values chid l chid ≡ none
unfolding cache_data_limit
cache_data_limit-absent values chid l h = rw (h, cache_data_limit) h

cache_data_limit-known :
    (values : ProgressCache) (chid : ChannelId) (l : ℕ) (w : ProgressState)
    → values chid ≡ some w
    → cache_data_limit values chid l chid ≡ some (record w { data_limit = l })
unfolding cache_data_limit
cache_data_limit-known values chid l w h =
    rw (h, cache_data_limit) (set_progress_self values chid (record w { data_limit = l }))

some-eq : {a b : ProgressState} → some a ≡ some b → a ≡ b
some-eq h = cc

cache_data_limit-Agrees :
    (values : ProgressCache) (chid : ChannelId) (l : ℕ) (original : ProgressState)
    → Agrees values chid original
    → Agrees (cache_data_limit values chid l) chid (record original { data_limit = l })
cache_data_limit-Agrees values chid l original agree = λ v e. elim (Option-cases (values chid)) [
  | inl absent ↦ let nothing_there = cache_data_limit-absent values chid l absent in absurd (cc)
  | inr (w, there) ↦
      some-eq (sym e ∙ cache_data_limit-known values chid l w there)
      ∙ ap (λ (x : ProgressState). record x { data_limit = l }) (agree w there)
]

module _ (g : Group) where
  -- Setting a limit on a channel in transfer has no error. The stored channel then has the limit, and
  -- is as it was but for the log; and if the cache of progress agreed with the store, in either
  -- direction, it still does.
  pub set_data_limit-Agrees :
      (d : Direction) (chid : ChannelId) (l : ℕ) (c : Channels g) (ch : ChannelState)
      → g.get_sync c.store chid ≡ ok ch
      → transferring ch.status ≡ true
      → Agrees c.progress_cache chid (state_of d ch)
      → let r = set_data_limit g chid l c in
        let stored = limited_to (g.clock c.store) l ch in
        (g.get_sync r.0.store chid ≡ ok stored)
        × (r.1 ≡ none)
        × Agrees r.0.progress_cache chid (state_of d stored)
  unfolding set_data_limit land
  set_data_limit-Agrees d chid l c ch got in_transfer agree =
      let now : ℕ = g.clock c.store in
      let (live, calm) = transferring_calm ch.status in_transfer in
      let (same_status, same_state) = limited_to-views d now l ch in
      let c' : Channels g = record c {
        progress_cache = cache_data_limit c.progress_cache chid l;
      } in
      let (stored, fine) =
        send-land g chid EventCode.set_data_limit (some_bytes l) c' ch (limited_to now l ch)
          just_record got live (moves-set_data_limit ch.status live)
          (effect-set_data_limit now l ch) calm in
      (
        stored,
        fine,
        rw
            (
              same_state,
              send-progress_cache g chid EventCode.set_data_limit (some_bytes l) c' ch got,
            )
            (cache_data_limit-Agrees c.progress_cache chid l (state_of d ch) agree),
      )
