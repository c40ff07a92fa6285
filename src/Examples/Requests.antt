-- ===== src/Examples/Requests.antt =====
-- Updates of a validation, requests and restarts, seen by peer 2, the responder of the sample.
use go_data_transfer.Base.{◌≡◌, refl, false, none, some, ◌⊎◌, inr}
use go_data_transfer.Statuses.{completed}
use go_data_transfer.Types.{ChannelId}
use go_data_transfer.Channels.Internal.{ChannelState}
use go_data_transfer.Channels.State.{channel_id, other_peer}
use go_data_transfer.Channels.Group.Stored.{memory_group}
use go_data_transfer.Messages.{new_message, restart_message, message_code, no_channel}
use go_data_transfer.Messages.Request.{TransferRequest}
use go_data_transfer.Manager.Rules.{Ends}
use go_data_transfer.Manager.Commands.ValidationUpdate.{update_validation_status}
use go_data_transfer.Manager.Commands.Updating.{Updated, update_validation_status-Updated}
use go_data_transfer.Manager.Commands.Validating.{update_validation_status_panics}
use go_data_transfer.Manager.Requests.{accept_request, receive_new_request, receive_restart_request}
use go_data_transfer.Registry.{processor}
use go_data_transfer.Manager.Requests.Tracking.{Tracked, accept_request-Tracked}
use go_data_transfer.Manager.Requests.Guarding.{Approved, TurnedDown, receive_new_request_guarded}
use go_data_transfer.Manager.Requests.Resuming.{MayRestart, receive_restart_request_guarded}
use go_data_transfer.Manager.Restart.{restart_data_transfer_channel}
use go_data_transfer.Manager.Restart.Composition.{
  Asked, LetThrough, restart_data_transfer_channel-validate_restart_request,
}
use go_data_transfer.Examples.Peers.{setup_of, more, willing, manager_with, sample_manager, holding}
use go_data_transfer.Examples.Samples.{sample, sample_in, sample_id, sample_channels}

-- The limit is raised, and the channel was not paused: the response is sent.
update_validation_status-Updated_example :
    Ends
      (λ s' e. Updated memory_group (setup_of 2) more sample s')
      (update_validation_status memory_group (setup_of 2) (channel_id sample) more sample_manager)
unfolding channel_id
update_validation_status-Updated_example =
    update_validation_status-Updated memory_group (setup_of 2) more sample sample_manager refl refl
      refl refl refl refl

-- A rejection of a channel that has completed.
update_validation_status_panics_example :
    update_validation_status memory_group
      (setup_of 2)
      sample_id
      (record more { accepted = false })
      (manager_with (holding (sample_in completed)))
    ≡ none
update_validation_status_panics_example =
    update_validation_status_panics memory_group (setup_of 2) sample_id
      (record more { accepted = false }) (manager_with (holding (sample_in completed))) refl
      (inr (sample_in completed, refl, refl, refl))

-- A request without a voucher, and one to restart a channel that is not known.
abbrev bare_request : TransferRequest
bare_request = record {
  base_cid_ptr = some 40;
  message_type = message_code new_message;
  pause = false;
  partial = false;
  pull = false;
  selector_ptr = some 3;
  voucher_ptr = none;
  voucher_type_identifier = "V";
  transfer_id = 8;
  restart_channel = no_channel;
}

abbrev fresh_id : ChannelId
fresh_id = record { initiator = 1; responder = 2; id = 8 }

-- The same with a voucher of the registered type.
abbrev full_request : TransferRequest
full_request = record bare_request { voucher_ptr = some 5 }

accept_request-Tracked_example :
    Ends
      (λ s' r.
        (r ≡ (more, none))
        × Tracked memory_group
            (setup_of 2)
            1
            full_request
            (record { voucher = some 5; type_id = "V" })
            more
            s')
      (accept_request memory_group (setup_of 2) fresh_id full_request sample_manager)
unfolding processor
accept_request-Tracked_example =
    accept_request-Tracked memory_group (setup_of 2) 1 full_request sample_manager
      (record {
        stor = 3;
        voucher = record { voucher = some 5; type_id = "V" };
        validator = willing;
        has_selector = refl;
        has_voucher = refl;
        registered = refl;
        no_error = refl;
        accepts = refl;
      })
      refl

receive_new_request_guarded_example :
    Approved (setup_of 2) fresh_id bare_request sample_manager
    ⊎ Ends
        (λ s' r. (s' ≡ sample_manager) × TurnedDown r)
        (receive_new_request memory_group (setup_of 2) fresh_id bare_request sample_manager)
receive_new_request_guarded_example =
    receive_new_request_guarded (setup_of 2) fresh_id bare_request sample_manager

abbrev restart_of_unknown : TransferRequest
restart_of_unknown = record bare_request {
  message_type = message_code restart_message;
  voucher_ptr = some 5;
}

receive_restart_request_guarded_example :
    MayRestart (setup_of 2) fresh_id restart_of_unknown sample_manager
    ⊎ Ends
        (λ s' r. (s' ≡ sample_manager) × TurnedDown r)
        (receive_restart_request memory_group
          (setup_of 2)
          fresh_id
          restart_of_unknown
          sample_manager)
receive_restart_request_guarded_example =
    receive_restart_request_guarded (setup_of 2) fresh_id restart_of_unknown sample_manager

-- Peer 1 restarts the push, and peer 2 lets the request through.
abbrev mine : ChannelState
mine = record sample { self_peer = 1 }

restart_data_transfer_channel-validate_restart_request_example :
    Ends
      (λ s' e.
        Asked memory_group
          (setup_of 1)
          (other_peer mine)
          (LetThrough memory_group (setup_of 1) (setup_of 2) sample_channels mine)
          s')
      (restart_data_transfer_channel memory_group
        (setup_of 1)
        sample_id
        (manager_with (holding mine)))
unfolding channel_id
restart_data_transfer_channel-validate_restart_request_example =
    restart_data_transfer_channel-validate_restart_request memory_group (setup_of 1) sample_id mine
      (manager_with (holding mine)) (setup_of 2) sample_channels refl refl refl refl refl
      (record {
        theirs = sample;
        responding = refl;
        node = 5;
        stored = refl;
        live = refl;
        same_id = refl;
        same_base = refl;
        same_voucher = refl;
        present = refl;
        reflexive = refl;
      })
