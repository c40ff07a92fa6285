-- ===== src/Channels/Caches.antt =====
-- channels/caches.go, where no other goroutine comes between: the two caches as maps. The mutexes
-- are left out. The pointers are to counters that only the cache's entry holds, so the map holds the
-- numbers. A call on a missing key reads the original. The compare-and-swap loop, with other
-- goroutines, is in Race.
pub mod Race
pub mod Updates
pub mod Entries
use go_data_transfer.Base.{
  ℕ, ℤ, ◌+◌, Bool, true, false, not, ◌&&◌, Option, none, some, ◌==◌, leb, leb_ℤ, if◌then◌else◌, ◌≡◌,
  ==_refl,
}
use go_data_transfer.Events.{EventCode, event_code, event_eq}
use go_data_transfer.Types.{ChannelId, channel_id_eq, channel_id_eq_refl}
use go_data_transfer.Errors.{Err, Result, ok, err}
use go_data_transfer.Channels.Fsm.Table.{add_u64}

abbrev pub ReadIndexFn : Type 0
ReadIndexFn = ChannelId → Result ℤ

abbrev pub BlockIndexCache : Type 0
BlockIndexCache = EventCode → ChannelId → Option ℤ

abbrev pub new_block_index_cache : BlockIndexCache
new_block_index_cache evt chid = none

abbrev pub set_index : BlockIndexCache → EventCode → ChannelId → ℤ → BlockIndexCache
set_index values evt chid v e c =
    if event_eq evt e && channel_id_eq chid c then some v else values e c

pub set_index_self :
    (values : BlockIndexCache) (evt : EventCode) (chid : ChannelId) (v : ℤ)
    → set_index values evt chid v evt chid ≡ some v
set_index_self values evt chid v = rw (==_refl (event_code evt), channel_id_eq_refl chid)

-- The value, and the cache with it.
unfoldable pub get_index :
    BlockIndexCache → EventCode → ChannelId → ReadIndexFn → BlockIndexCache × Result ℤ
get_index values evt chid read_from_original = elim (values evt chid) [
  | some v ↦ (values, ok v)
  | none ↦ elim (read_from_original chid) [
    | err e ↦ (values, err e)
    | ok v ↦ (set_index values evt chid v, ok v)
  ]
]

-- The loop with no other goroutine: the swap succeeds at once.
unfoldable pub update_if_greater :
    BlockIndexCache → EventCode → ChannelId → ℤ → ReadIndexFn → BlockIndexCache × Result Bool
update_if_greater values evt chid new_index read_from_original =
    let (values', r) = get_index values evt chid read_from_original in
    elim r [
      | err e ↦ (values', err e)
      | ok current_index ↦
          if leb_ℤ new_index current_index
          then (values', ok false)
          else (set_index values' evt chid new_index, ok true)
    ]

pub record ProgressState : Type 0 where
  pub data_limit : ℕ
  pub progress : ℕ

abbrev pub ReadProgressFn : Type 0
ReadProgressFn = ChannelId → Result ProgressState

abbrev pub ProgressCache : Type 0
ProgressCache = ChannelId → Option ProgressState

abbrev pub new_progress_cache : ProgressCache
new_progress_cache chid = none

abbrev pub set_progress : ProgressCache → ChannelId → ProgressState → ProgressCache
set_progress values chid v c = if channel_id_eq chid c then some v else values c

pub set_progress_self :
    (values : ProgressCache) (chid : ChannelId) (v : ProgressState)
    → set_progress values chid v chid ≡ some v
set_progress_self values chid v = rw (channel_id_eq_refl chid)

unfoldable pub get_progress :
    ProgressCache → ChannelId → ReadProgressFn → ProgressCache × Result ProgressState
get_progress values chid read_progress = elim (values chid) [
  | some v ↦ (values, ok v)
  | none ↦ elim (read_progress chid) [
    | err e ↦ (values, err e)
    | ok v ↦ (set_progress values chid v, ok v)
  ]
]

-- `state.dataLimit != 0 && total >= state.dataLimit`
abbrev pub past_limit : ℕ → ℕ → Bool
past_limit data_limit total = not (data_limit == 0) && leb data_limit total

unfoldable pub add_progress :
    ProgressCache → ChannelId → ℕ → ReadProgressFn → ProgressCache × Result Bool
add_progress values chid additional_data read_from_original =
    let (values', r) = get_progress values chid read_from_original in
    elim r [
      | err e ↦ (values', err e)
      | ok state ↦
          let total : ℕ = add_u64 state.progress additional_data in
          (
            set_progress values' chid (record state { progress = total }),
            ok (past_limit state.data_limit total),
          )
    ]

-- The limit of a channel that is not cached stays in the store alone.
unfoldable pub cache_data_limit : ProgressCache → ChannelId → ℕ → ProgressCache
cache_data_limit values chid new_limit = elim (values chid) [
  | none ↦ values
  | some v ↦ set_progress values chid (record v { data_limit = new_limit })
]
