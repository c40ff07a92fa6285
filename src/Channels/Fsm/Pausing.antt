-- ===== src/Channels/Fsm/Pausing.antt =====
-- The events of channels/channels_fsm.go that pause and resume.
use go_data_transfer.Base.{[], ◌∷◌, ◌++◌, true, false}
use go_data_transfer.Statuses.{
  requested, ongoing, transfer_finished, responder_completed, finalizing, completing,
  responder_finalizing, queued, awaiting_acceptance,
}
use go_data_transfer.Events.{EventCode}
use go_data_transfer.Channels.Internal.{add_log}
use go_data_transfer.Channels.Fsm.Table.{EventDesc, from, to, just_record, from_many, plain}

abbrev pub pause_initiator_event : EventDesc
pause_initiator_event = record {
  code = EventCode.pause_initiator;
  transitions = from_many (ongoing ∷ requested ∷ queued ∷ awaiting_acceptance ∷ []) just_record;
  action = plain (λ now ch. add_log now "" (record ch { initiator_paused = true }));
}

abbrev pub pause_responder_event : EventDesc
pause_responder_event = record {
  code = EventCode.pause_responder;
  transitions =
      from_many (ongoing ∷ requested ∷ queued ∷ awaiting_acceptance ∷ transfer_finished ∷ [])
        just_record;
  action = plain (λ now ch. add_log now "" (record ch { responder_paused = true }));
}

abbrev pub data_limit_exceeded_event : EventDesc
data_limit_exceeded_event = record {
  code = EventCode.data_limit_exceeded;
  transitions =
      from_many
        (ongoing ∷ requested ∷ queued ∷ awaiting_acceptance ∷ responder_completed
          ∷ responder_finalizing ∷ [])
        just_record;
  action = plain (λ now ch. add_log now "" (record ch { responder_paused = true }));
}

abbrev pub resume_initiator_event : EventDesc
resume_initiator_event = record {
  code = EventCode.resume_initiator;
  transitions =
      from_many
        (ongoing ∷ requested ∷ queued ∷ awaiting_acceptance ∷ responder_completed
          ∷ responder_finalizing ∷ [])
        just_record;
  action = plain (λ now ch. add_log now "" (record ch { initiator_paused = false }));
}

abbrev pub resume_responder_event : EventDesc
resume_responder_event = record {
  code = EventCode.resume_responder;
  transitions =
      from_many (ongoing ∷ requested ∷ queued ∷ awaiting_acceptance ∷ transfer_finished ∷ [])
        just_record
      ++ (from finalizing, to completing) ∷ [];
  action = plain (λ now ch. add_log now "" (record ch { responder_paused = false }));
}
