-- ===== src/Examples/Machines.antt =====
-- The state machine of a channel at work.
use go_data_transfer.Base.{◌≡◌, ◌↔◌, refl, ℤ, List, [], ◌∷◌, true, false, none}
use go_data_transfer.Statuses.{both_paused, completing, completed, cancelled, failed, failing}
use go_data_transfer.Events.{
  EventCode, finish_transfer, responder_completes, responder_begins_finalization, data_received,
  cleanup_complete, complete_cleanup_on_restart,
}
use go_data_transfer.Channels.Fsm.Finality.{cleanup_channel, unprotect, is_channel_cleaning_up}
use go_data_transfer.Channels.Fsm.Engine.{
  nothing, an_index, documented_engine, documented, run_action, land, apply_entry,
}
use go_data_transfer.Channels.Fsm.Machine.{Input, receive, run}
use go_data_transfer.Channels.Fsm.Machine.Identity.{SameTerms, run-SameTerms}
use go_data_transfer.Channels.Fsm.Machine.Progress.{Grows, run-Grows}
use go_data_transfer.Channels.Fsm.Machine.Terminal.{Ended, final_of, receive_terminates, run_final}
use go_data_transfer.Channels.Fsm.Machine.Completion.{running, run-embed}
use go_data_transfer.Channels.Fsm.Machine.Cleanup.{
  settle, ending_input, fails, settle_ends, settle_restart,
}
use go_data_transfer.Channels.State.{voucher}
use go_data_transfer.Channels.Migrations.{ChannelStateV2, migrate_channel_state_2_to_3}
use go_data_transfer.Channels.Migrations.Kept.{Migrated, migrate_channel_state_2_to_3-Migrated}
use go_data_transfer.Channels.State.History.{run-voucher}
use go_data_transfer.Examples.Samples.{sample, sample_in, sample_id}

abbrev plain_input : EventCode → Input
plain_input e = record { code = e; args = nothing; now = 100 }

-- The responder's Complete comes before this side has finished, with a block between them.
abbrev crossing : List Input
crossing =
    plain_input responder_begins_finalization
    ∷ plain_input responder_completes
    ∷ record { code = data_received; args = an_index (ℤ.pos 9); now = 101 }
    ∷ plain_input finish_transfer
    ∷ []

crossing_completes : (run documented_engine sample crossing).status ≡ completing
unfolding run documented run_action land apply_entry go_data_transfer.Channels.Internal.add_log
crossing_completes = refl

run-embed_example : (run documented_engine sample crossing).status ≡ completing
run-embed_example =
    run-embed documented_engine sample crossing (record { finished = false; responder = running })
      refl ((refl, λ e. cc), ((refl, λ e. cc), (tt, ((refl, refl), tt))))

run-SameTerms_example : SameTerms sample (run documented_engine sample crossing)
run-SameTerms_example = run-SameTerms documented_engine sample crossing

run-Grows_example : Grows sample (run documented_engine sample crossing)
run-Grows_example = run-Grows documented_engine sample crossing

receive_terminates_example :
    (cleanup_complete ≡ cleanup_complete)
    × (is_channel_cleaning_up failing ≡ true)
    × ((receive documented_engine (sample_in failing) (plain_input cleanup_complete)).status
        ≡ final_of failing)
unfolding receive documented run_action land apply_entry
receive_terminates_example =
    receive_terminates documented_engine (sample_in failing) (plain_input cleanup_complete) refl
      refl

run_final_example :
    ((is : List Input) → run documented_engine (sample_in cancelled) is ≡ sample_in cancelled)
    ↔ Ended cancelled
run_final_example = run_final documented_engine (sample_in cancelled)

settle_ends_example :
    ((settle documented_engine 2 101 sample (ending_input (fails "lost") 100)).0.status ≡ failed)
    × ((settle documented_engine 2 101 sample (ending_input (fails "lost") 100)).1
        ≡ cleanup_channel sample_id ∷ unprotect 1 sample_id ∷ [])
settle_ends_example = settle_ends documented_engine 2 100 101 sample (fails "lost") refl

settle_restart_example :
    let r =
      settle documented_engine 2 101
        (sample_in completing)
        (plain_input complete_cleanup_on_restart) in
    (r.0.status ≡ completed) × (r.1 ≡ cleanup_channel sample_id ∷ unprotect 1 sample_id ∷ [])
settle_restart_example = settle_restart documented_engine 2 100 101 (sample_in completing) refl

-- A stored channel of version 2 that the two parties have paused.
abbrev old_sample : ChannelStateV2
old_sample = record {
  self_peer = 2;
  transfer_id = 7;
  initiator = 1;
  responder = 2;
  base_cid = 40;
  selector = none;
  sender = 1;
  recipient = 2;
  total_size = 0;
  status = both_paused;
  queued = 0;
  sent = 0;
  received = 10;
  message = "";
  vouchers = [];
  voucher_results = [];
  received_blocks_total = ℤ.pos 1;
  queued_blocks_total = ℤ.pos 0;
  sent_blocks_total = ℤ.pos 0;
  data_limit = 15;
  requires_finalization = false;
  stages = none;
}

migrate_channel_state_2_to_3-Migrated_example :
    Migrated old_sample (migrate_channel_state_2_to_3 old_sample)
migrate_channel_state_2_to_3-Migrated_example = migrate_channel_state_2_to_3-Migrated old_sample

run-voucher_example : voucher (run documented_engine sample crossing) ≡ voucher sample
run-voucher_example = run-voucher documented_engine sample crossing (λ e. cc)
