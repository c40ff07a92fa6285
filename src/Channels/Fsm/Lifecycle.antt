-- ===== src/Channels/Fsm/Lifecycle.antt =====
-- The events of channels/channels_fsm.go that move a channel through its life.
use go_data_transfer.Base.{[], ◌∷◌, ◌++◌}
use go_data_transfer.Statuses.{
  requested, ongoing, transfer_finished, responder_completed, finalizing, completing, completed,
  failing, failed, cancelling, cancelled, responder_finalizing,
  responder_finalizing_transfer_finished, queued, awaiting_acceptance,
}
use go_data_transfer.Events.{EventCode}
use go_data_transfer.Channels.Internal.{add_log}
use go_data_transfer.Channels.Fsm.Table.{
  EventDesc, from, from_any, to, no_change, just_record, from_many, plain,
}

abbrev pub open_channel_event : EventDesc
open_channel_event = record {
  code = EventCode.open_channel;
  transitions = (from_any, to requested) ∷ [];
  action = plain (λ now ch. add_log now "" ch);
}

abbrev pub accept_event : EventDesc
accept_event = record {
  code = EventCode.accept;
  transitions = (from requested, to queued) ∷ (from awaiting_acceptance, to ongoing) ∷ [];
  action = plain (λ now ch. add_log now "" ch);
}

abbrev pub transfer_initiated_event : EventDesc
transfer_initiated_event = record {
  code = EventCode.transfer_initiated;
  transitions =
      (from requested, to awaiting_acceptance)
      ∷ (from queued, to ongoing)
      ∷ (from ongoing, just_record)
      ∷ [];
  action = plain (λ now ch. add_log now "" ch);
}

abbrev pub restart_event : EventDesc
restart_event = record {
  code = EventCode.restart;
  transitions = (from_any, just_record) ∷ [];
  action = plain (λ now ch. add_log now "" (record ch { message = "" }));
}

abbrev pub cancel_event : EventDesc
cancel_event = record {
  code = EventCode.cancel;
  transitions = (from_any, to cancelling) ∷ [];
  action = plain (λ now ch. add_log now "" ch);
}

abbrev pub opened_event : EventDesc
opened_event = record {
  code = EventCode.opened;
  transitions = (from_any, just_record) ∷ [];
  action = plain (λ now ch. add_log now "" (record ch { message = "" }));
}

abbrev pub finish_transfer_event : EventDesc
finish_transfer_event = record {
  code = EventCode.finish_transfer;
  transitions =
      (from_any, to transfer_finished) ∷ from_many (failing ∷ cancelling ∷ []) just_record
      ++ (from responder_completed, to completing)
        ∷ (from responder_finalizing, to responder_finalizing_transfer_finished)
        ∷ (from awaiting_acceptance, to completing)
        ∷ [];
  action = plain (λ now ch. add_log now "" ch);
}

abbrev pub responder_begins_finalization_event : EventDesc
responder_begins_finalization_event = record {
  code = EventCode.responder_begins_finalization;
  transitions =
      (from_any, to responder_finalizing) ∷ from_many (failing ∷ cancelling ∷ []) just_record
      ++ (from transfer_finished, to responder_finalizing_transfer_finished)
        ∷ from_many (responder_finalizing ∷ responder_finalizing_transfer_finished ∷ [])
            just_record;
  action = plain (λ now ch. add_log now "" ch);
}

abbrev pub responder_completes_event : EventDesc
responder_completes_event = record {
  code = EventCode.responder_completes;
  transitions =
      (from_any, to responder_completed) ∷ from_many (failing ∷ cancelling ∷ []) just_record
      ++ (from transfer_finished, to completing)
        ∷ (from responder_finalizing_transfer_finished, to completing)
        ∷ [];
  action = plain (λ now ch. add_log now "" ch);
}

abbrev pub begin_finalizing_event : EventDesc
begin_finalizing_event = record {
  code = EventCode.begin_finalizing;
  transitions = (from_any, to finalizing) ∷ [];
  action = plain (λ now ch. add_log now "" ch);
}

abbrev pub complete_event : EventDesc
complete_event = record {
  code = EventCode.complete;
  transitions = (from_any, to completing) ∷ [];
  action = plain (λ now ch. add_log now "" ch);
}

abbrev pub cleanup_complete_event : EventDesc
cleanup_complete_event = record {
  code = EventCode.cleanup_complete;
  transitions =
      (from cancelling, to cancelled)
      ∷ (from failing, to failed)
      ∷ (from completing, to completed)
      ∷ [];
  action = plain (λ now ch. add_log now "" ch);
}

abbrev pub complete_cleanup_on_restart_event : EventDesc
complete_cleanup_on_restart_event = record {
  code = EventCode.complete_cleanup_on_restart;
  transitions = (from_any, no_change) ∷ [];
  action = plain (λ now ch. add_log now "" ch);
}
