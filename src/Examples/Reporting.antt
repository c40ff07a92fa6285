-- ===== src/Examples/Reporting.antt =====
-- Reports of blocks, and goroutines that race on one counter.
use go_data_transfer.Base.{ℕ, ℤ, ◌≡◌, refl, List, [], ◌∷◌, Bool, true, false, some, ◌≤ℤ◌, ◌<ℤ◌}
use go_data_transfer.Statuses.{ongoing}
use go_data_transfer.Events.{data_received}
use go_data_transfer.Errors.{ok, pause}
use go_data_transfer.Channels.Caches.{update_if_greater, set_index, new_block_index_cache}
use go_data_transfer.Channels.Caches.Race.{Race, loading, returned, schedule}
use go_data_transfer.Channels.Caches.Race.Outcome.{progress_once, returned_bounds, alone_agrees}
use go_data_transfer.Channels.Group.Stored.{memory_group}
use go_data_transfer.Channels.Ops.Progress.Tally.{receiving}
use go_data_transfer.Channels.Ops.Progress.Limits.{report-Outcome}
use go_data_transfer.Channels.Ops.Progress.Paths.{Outcome, report}
use go_data_transfer.Examples.Samples.{sample, sample_id, sample_channels}

-- A second block of 10 bytes passes the limit of 15.
report-Outcome_example :
    Outcome memory_group receiving sample_id
      (report memory_group receiving sample_id 41 10 (ℤ.pos 2) true sample_channels)
      (some pause)
      (record {
        status = ongoing;
        bytes = 20;
        index = ℤ.pos 2;
        data_limit = 15;
        responder_paused = true;
      })
report-Outcome_example =
    report-Outcome memory_group receiving sample_id 41 10 (ℤ.pos 2) true sample_channels sample refl
      refl (λ v e. cc)

-- All goroutines come with index 5; the counter is at 3.
abbrev all_five : Race
all_five = record { counter = ℤ.pos 3; thread = λ k. loading (ℤ.pos 5); stored = [] }

-- The second loads before the first has swapped.
abbrev interleaved : List ℕ
interleaved = 0 ∷ 1 ∷ 0 ∷ 1 ∷ 1 ∷ []

race_ends :
    ((schedule all_five interleaved).thread 0 ≡ returned (ℤ.pos 5) true)
    × ((schedule all_five interleaved).thread 1 ≡ returned (ℤ.pos 5) false)
unfolding schedule
race_ends = (refl, refl)

progress_once_example : ◌≡◌ {A = ℕ} 0 0
progress_once_example =
    progress_once all_five interleaved 0 0 (ℤ.pos 5)
      (record { threads = λ k. (ℤ.pos 5, refl); none_stored = refl }) race_ends.0 race_ends.0

returned_bounds_example :
    (ℤ.pos 5 ≤ℤ (schedule all_five interleaved).counter) × (true ≡ true → ℤ.pos 3 <ℤ ℤ.pos 5)
returned_bounds_example =
    returned_bounds all_five interleaved 0 (ℤ.pos 5) true
      (record { threads = λ k. (ℤ.pos 5, refl); none_stored = refl }) race_ends.0

alone_agrees_example :
    let values = set_index new_block_index_cache data_received sample_id (ℤ.pos 3) in
    let r = update_if_greater values data_received sample_id (ℤ.pos 5) (λ c. ok (ℤ.pos 0)) in
    let s' = schedule all_five (0 ∷ 0 ∷ []) in
    (b : Bool) × (s'.thread 0 ≡ returned (ℤ.pos 5) b)
    × (r.1 ≡ ok b)
    × (r.0 data_received sample_id ≡ some s'.counter)
alone_agrees_example =
    alone_agrees all_five 0 (ℤ.pos 5)
      (set_index new_block_index_cache data_received sample_id (ℤ.pos 3)) data_received sample_id
      (λ c. ok (ℤ.pos 0)) refl refl
