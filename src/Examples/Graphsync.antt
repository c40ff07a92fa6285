-- ===== src/Examples/Graphsync.antt =====
-- The graphsync transport at concrete inputs: runs, and the theorems applied to them.
use go_data_transfer.Base.{
  ◌≡◌, refl, find, Bool, true, false, List, [], ◌∷◌, none, some, str_eq, if◌then◌else◌,
}
use go_data_transfer.Types.{channel_id_eq}
use go_data_transfer.Errors.{other, ok, pause}
use go_data_transfer.Channels.Internal.{add_log}
use go_data_transfer.Channels.Group.Stored.{memory_group}
use go_data_transfer.Channels.Ops.{Channels, new_channels}
use go_data_transfer.Messages.Build.{update_response, update_request}
use go_data_transfer.Messages.Wire.{TransferMessage, a_request, a_response, to_ipld}
use go_data_transfer.Manager.Control.{controlled}
use go_data_transfer.Manager.World.{Manager}
use go_data_transfer.Transport.Extension.{
  is_known, extension_data_transfer_1_1, extension_incoming_request_1_1,
  extension_outgoing_block_1_1, to_extension_data,
}
use go_data_transfer.Transport.Extension.Carried.{Carried, get_transfer_data-to_extension_data}
use go_data_transfer.Transport.World.{
  Transport, ◌>>◌, Graphsync, Context, gs_request, gs_cancel, terminate_with_error,
}
use go_data_transfer.Transport.Tracking.{new_dt_channel}
use go_data_transfer.Transport.{set_event_handler, new_transport, cleanup_channel}
use go_data_transfer.Transport.Channel.{open_request, gs_req_opened, gs_data_request_rcvd}
use go_data_transfer.Transport.Hooks.{GsMessage}
use go_data_transfer.Transport.Messaging.{gs_incoming_response_hook}
use go_data_transfer.Transport.Managed.{managed}
use go_data_transfer.Transport.Managed.Responses.{gs_incoming_response_hook-control}
use go_data_transfer.Transport.Rules.{Returns}
use go_data_transfer.Transport.Linked.{Linked}
use go_data_transfer.Transport.Linked.Runs.{
  perform, Operation, setting_handler, storing, announcing, awaiting, pausing, requester_cancelling,
  closing, perform_all, perform_all-Linked,
}
use go_data_transfer.Transport.Cleaning.{Forgets, cleanup_channel-Forgets}
use go_data_transfer.Transport.Pending.{
  Taken, encoded_all, resume_all, gs_data_request_rcvd-resume_all,
}
use go_data_transfer.Transport.Opening.{Opened, with_store, open_request-Opened}
use go_data_transfer.Examples.Samples.{sample, sample_id}
use go_data_transfer.Examples.Peers.{setup_of, manager_with}
use go_data_transfer.Examples.Surroundings.{plain_codec}

-- Graphsync without errors, at peer 1.
abbrev sample_gs : Graphsync TransferMessage
sample_gs = record {
  peer_id = 1;
  answer = λ earlier c. none;
  failure = λ e. other "graphsync";
  do_not_send_first_blocks = λ n. record {
    name = "graphsync/do-not-send-first-blocks";
    content = record { is_request = false; request = none; response = none };
  };
}

-- This node has paused the channel that it initiated.
abbrev paused_channels : Channels memory_group
paused_channels = new_channels memory_group (record {
  time = 100;
  channels = λ c.
      if channel_id_eq sample_id c
      then some (record sample { self_peer = 1; initiator_paused = true })
      else none;
})

abbrev World : Type 0
World = Transport TransferMessage (Manager memory_group)

-- A channel with the request 5, and one with the request 6.
abbrev busy : Bool → World
busy cancelled = record {
  events_set = true;
  supported_extensions = extension_data_transfer_1_1 ∷ [];
  unregister_funcs = [];
  gs_calls = [];
  handler = manager_with paused_channels;
  dt_channels =
      (
        sample_id,
        record (new_dt_channel sample_id) {
          is_open = true;
          request_id = some 5;
          store_registered = true;
          requester_cancelled = cancelled;
        },
      )
      ∷ (
        record sample_id { id = 8 },
        record (new_dt_channel (record sample_id { id = 8 })) { request_id = some 6 },
      )
      ∷ [];
  request_id_to_channel_id =
      (5, record { sending = false; channel_id = sample_id })
      ∷ (6, record { sending = true; channel_id = record sample_id { id = 8 } })
      ∷ [];
}

abbrev endless : Context
endless w = none

-- The message arrives by the extension that the two have in common.
get_transfer_data-to_extension_data_example :
    Carried plain_codec
      (a_request (update_request 7 true))
      (extension_incoming_request_1_1 ∷ extension_data_transfer_1_1 ∷ [])
      (extension_outgoing_block_1_1 ∷ extension_data_transfer_1_1 ∷ [])
      (to_extension_data plain_codec
        (a_request (update_request 7 true))
        (extension_incoming_request_1_1 ∷ extension_data_transfer_1_1 ∷ []))
unfolding is_known
get_transfer_data-to_extension_data_example =
    get_transfer_data-to_extension_data plain_codec (a_request (update_request 7 true))
      extension_incoming_request_1_1 (extension_data_transfer_1_1 ∷ [])
      (extension_outgoing_block_1_1 ∷ extension_data_transfer_1_1 ∷ []) (refl, (refl, tt)) refl

open_request-Opened_example :
    Returns
      (Opened sample_gs endless sample_id 9
        (with_store true sample_id (gs_request 2 40 3 [] ∷ gs_cancel 5 ∷ [])))
      (open_request sample_gs endless (gs_req_opened sample_id 9) sample_id 2 40 3 [] (busy false))
unfolding find
open_request-Opened_example =
    open_request-Opened sample_gs endless sample_id 9 2 40 3 [] (busy false) (λ w. refl) (λ q. refl)
      refl

gs_data_request_rcvd-resume_all_example :
    Returns
      (λ s a.
        Taken plain_codec sample_gs sample_id true [] 9
          (encoded_all plain_codec
            (extension_data_transfer_1_1 ∷ [])
            (some (a_response (update_response 7 false)) ∷ none ∷ []))
          s)
      ((resume_all plain_codec sample_gs sample_id
            (some (a_response (update_response 7 false)) ∷ none ∷ [])
          >> gs_data_request_rcvd sample_id 9)
        (busy true))
unfolding find
gs_data_request_rcvd-resume_all_example =
    gs_data_request_rcvd-resume_all plain_codec sample_gs sample_id (busy true) 5 9
      (some (a_response (update_response 7 false)) ∷ none ∷ []) refl refl

abbrev first_operations : List (Operation TransferMessage)
first_operations =
    setting_handler
    ∷ announcing sample_id 5
    ∷ awaiting endless sample_id
    ∷ storing sample_id
    ∷ pausing sample_id
    ∷ requester_cancelling sample_id
    ∷ closing endless sample_id
    ∷ []

perform_all-Linked_example : Linked (
    perform_all plain_codec sample_gs
      (managed memory_group (setup_of 1))
      first_operations
      (new_transport none (manager_with paused_channels)))
unfolding new_transport find perform set_event_handler
perform_all-Linked_example =
    perform_all-Linked plain_codec sample_gs (managed memory_group (setup_of 1)) none
      (manager_with paused_channels) first_operations
      (tt, ((λ d h. cc), (tt, (tt, (tt, (tt, (tt, tt)))))))

cleanup_channel-Forgets_example :
    Returns
      (λ s a.
        Forgets sample_id
          (perform_all plain_codec sample_gs
            (managed memory_group (setup_of 1))
            first_operations
            (new_transport none (manager_with paused_channels)))
          s)
      (cleanup_channel sample_gs sample_id (
        perform_all plain_codec sample_gs
          (managed memory_group (setup_of 1))
          first_operations
          (new_transport none (manager_with paused_channels))))
cleanup_channel-Forgets_example =
    cleanup_channel-Forgets sample_id
      (perform_all plain_codec sample_gs (managed memory_group (setup_of 1)) first_operations
        (new_transport none (manager_with paused_channels)))
      sample_gs perform_all-Linked_example

-- A resume of the responder, in the first extension.
abbrev resumed : GsMessage TransferMessage
resumed = record {
  id = 5;
  extension = λ name.
      if str_eq name extension_incoming_request_1_1
      then some (to_ipld plain_codec (a_response (update_response 7 false)))
      else none;
}

gs_incoming_response_hook-control_example :
    Returns
      (λ s a.
        (memory_group.get_sync s.handler.channels.store sample_id
          ≡ ok (controlled 100 false (record sample { self_peer = 1; initiator_paused = true })))
        × (s.gs_calls ≡ terminate_with_error (some pause) ∷ []))
      (gs_incoming_response_hook plain_codec sample_gs
        (managed memory_group (setup_of 1))
        2
        resumed
        (busy false))
unfolding find add_log
gs_incoming_response_hook-control_example =
    gs_incoming_response_hook-control plain_codec memory_group (setup_of 1) sample_gs (busy false)
      sample_id false (record sample { self_peer = 1; initiator_paused = true }) resumed refl refl
      refl refl refl refl refl refl refl
