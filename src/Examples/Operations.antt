-- ===== src/Examples/Operations.antt =====
-- The operations of the channels at work.
use go_data_transfer.Base.{ℤ, ◌≡◌, refl, true, none, some, inl, inr, if◌then◌else◌}
use go_data_transfer.Statuses.{cancelled}
use go_data_transfer.Types.{ChannelId, TypedVoucher, channel_id_eq}
use go_data_transfer.Errors.{ok, terminated}
use go_data_transfer.Channels.Internal.{ChannelState}
use go_data_transfer.Channels.Fsm.Engine.{nothing}
use go_data_transfer.Channels.Group.Stored.{memory_group}
use go_data_transfer.Channels.Ops.{Channels, send, cancel, create_new, get_by_id, new_channels}
use go_data_transfer.Channels.Ops.Creation.{Opens, create_new-Opens}
use go_data_transfer.Channels.Ops.Sending.{cancel_over}
use go_data_transfer.Channels.Ops.Apart.{Untouched, reports-Untouched}
use go_data_transfer.Channels.Ops.Progress.{data_sent, data_queued, data_received}
use go_data_transfer.Events.{accept}
use go_data_transfer.Channels.Caches.{set_progress, new_progress_cache}
use go_data_transfer.Channels.Caches.Updates.{Agrees}
use go_data_transfer.Channels.Ops.Progress.Tally.{receiving}
use go_data_transfer.Channels.Ops.Progress.Paths.{state_of}
use go_data_transfer.Channels.Ops.{set_data_limit}
use go_data_transfer.Channels.Ops.NewLimit.{limited_to, set_data_limit-Agrees}
use go_data_transfer.Messages.Build.{update_response}
use go_data_transfer.Manager.{on_response_received}
use go_data_transfer.Manager.Control.{controlled, on_response_received-control}
use go_data_transfer.Examples.Samples.{sample, sample_in, sample_id, sample_channels}

abbrev offered : TypedVoucher
offered = record { voucher = some 5; type_id = "V" }

abbrev pulled_id : ChannelId
pulled_id = record { initiator = 2; responder = 1; id = 8 }

-- Peer 2 asks peer 1 for data, beside the channel of the sample.
create_new-Opens_example :
    let r = create_new memory_group 2 8 40 none offered 2 1 2 sample_channels in
    (r.1 ≡ pulled_id)
    × (r.2 ≡ none)
    × ((stored : ChannelState) × (get_by_id memory_group r.0 pulled_id ≡ ok stored)
        × Opens pulled_id 2 1 2 40 offered stored)
create_new-Opens_example =
    create_new-Opens memory_group 2 8 40 none offered 2 1 1 2 sample_channels (inr (refl, refl))
      (inl refl) refl

abbrev over_channels : Channels memory_group
over_channels = new_channels memory_group (record {
  time = 100;
  channels = λ c. if channel_id_eq sample_id c then some (sample_in cancelled) else none;
})

cancel_over_example :
    (cancel memory_group sample_id over_channels ≡ (over_channels, none))
    × (send memory_group sample_id accept nothing over_channels ≡ (over_channels, some terminated))
cancel_over_example =
    cancel_over memory_group sample_id accept nothing over_channels (sample_in cancelled) refl refl

-- A block of another channel, that is not known.
reports-Untouched_example :
    Untouched memory_group sample_id sample_channels
      (data_sent memory_group pulled_id 40 5 (ℤ.pos 2) true sample_channels).0
    × Untouched memory_group sample_id sample_channels
        (data_queued memory_group pulled_id 40 5 (ℤ.pos 2) true sample_channels).0
    × Untouched memory_group sample_id sample_channels
        (data_received memory_group pulled_id 40 5 (ℤ.pos 2) true sample_channels).0
    × Untouched memory_group sample_id sample_channels
        (set_data_limit memory_group pulled_id 30 sample_channels).0
reports-Untouched_example =
    reports-Untouched memory_group pulled_id sample_id refl 40 5 (ℤ.pos 2) true 30 sample_channels

-- The initiator's side of the sample, and a pause of the responder.
abbrev own_channels : Channels memory_group
own_channels = new_channels memory_group (record {
  time = 100;
  channels =
      λ c. if channel_id_eq sample_id c then some (record sample { self_peer = 1 }) else none;
})

on_response_received-control_example :
    let r = on_response_received memory_group 1 sample_id (update_response 7 true) own_channels in
    (memory_group.get_sync r.0.store sample_id
      ≡ ok (controlled 100 true (record sample { self_peer = 1 })))
    × (r.1 ≡ none)
on_response_received-control_example =
    on_response_received-control memory_group 1 sample_id true own_channels
      (record sample { self_peer = 1 }) refl refl refl

-- The sample with its progress in the cache, and a higher limit.
abbrev cached_channels : Channels memory_group
cached_channels = record sample_channels {
  progress_cache =
      set_progress new_progress_cache sample_id (record { data_limit = 15; progress = 10 });
}

cached_channels-Agrees : Agrees cached_channels.progress_cache sample_id (state_of receiving sample)
cached_channels-Agrees v e = cc

set_data_limit-Agrees_example :
    let r = set_data_limit memory_group sample_id 30 cached_channels in
    let stored = limited_to 100 30 sample in
    (memory_group.get_sync r.0.store sample_id ≡ ok stored)
    × (r.1 ≡ none)
    × Agrees r.0.progress_cache sample_id (state_of receiving stored)
set_data_limit-Agrees_example =
    set_data_limit-Agrees memory_group receiving sample_id 30 cached_channels sample refl refl
      cached_channels-Agrees
