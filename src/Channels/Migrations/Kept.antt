-- ===== src/Channels/Migrations/Kept.antt =====
-- What a migration keeps of a channel.
use go_data_transfer.Base.{◌≡◌, refl, arith, Bool, ◌||◌, ◌&&◌, if◌then◌else◌}
use go_data_transfer.Statuses.{
  Status, status_eq, initiator_paused, responder_paused, both_paused, finalizing, is_accepted,
  transfer_complete, ongoing,
}
use go_data_transfer.Errors.{Result, ok, err}
use go_data_transfer.Channels.Internal.{ChannelState}
use go_data_transfer.Channels.State
use go_data_transfer.Channels.State.{
  both_paused as both_paused_view, is_pull, channel_id, other_peer, last_voucher,
  last_voucher_result,
}
use go_data_transfer.Channels.Fsm.Finality.{is_channel_terminated, is_channel_cleaning_up}
use go_data_transfer.Channels.Migrations.{ChannelStateV2, new_status, migrate_channel_state_2_to_3}

abbrev pub is_pause_status : Status → Bool
is_pause_status s =
    status_eq s initiator_paused || status_eq s responder_paused || status_eq s both_paused

-- The new state stands for the old one: its status is ongoing for a pause and the same otherwise, and
-- is of the same kind; each party
-- is paused in it just if the old status said so, and the responder also while it finalizes.
pub record Kept (old : ChannelStateV2) (ch : ChannelState) : Type 0 where
  pub new_status_read : ch.status ≡ (if is_pause_status old.status then ongoing else old.status)
  pub same_terminated : is_channel_terminated ch.status ≡ is_channel_terminated old.status
  pub same_cleaning_up : is_channel_cleaning_up ch.status ≡ is_channel_cleaning_up old.status
  pub same_accepted : is_accepted ch.status ≡ is_accepted old.status
  pub same_complete : transfer_complete ch.status ≡ transfer_complete old.status
  pub initiator_view :
      ch.initiator_paused
      ≡ (status_eq old.status initiator_paused || status_eq old.status both_paused)
  pub responder_view : State.responder_paused ch ≡ (
      status_eq old.status responder_paused
      || status_eq old.status both_paused
      || status_eq old.status finalizing)
  pub both_view : both_paused_view ch ≡ status_eq old.status both_paused

abbrev pub Migrated : ChannelStateV2 → Result ChannelState → Type 0
Migrated old (err e) = ⊥
Migrated old (ok ch) = Kept old ch

-- The migration of a stored channel from version 2 succeeds in every status. A status of a pause
-- becomes ongoing and any other stays, so the channel is terminated, cleaning up, accepted or complete
-- just if it was; each party is paused just if the old status said so, except that the responder
-- counts as paused while it finalizes, and both are paused just if the status was that of both.
pub migrate_channel_state_2_to_3-Migrated :
    (old : ChannelStateV2) → Migrated old (migrate_channel_state_2_to_3 old)
unfolding migrate_channel_state_2_to_3
migrate_channel_state_2_to_3-Migrated old = record {
  new_status_read = status_read old.status;
  same_terminated = terminated_kept old.status;
  same_cleaning_up = cleaning_kept old.status;
  same_accepted = accepted_kept old.status;
  same_complete = complete_kept old.status;
  initiator_view = refl;
  responder_view = responder_seen old.status;
  both_view = both_seen old.status;
}
  where
    status_read : (s : Status) → new_status s ≡ (if is_pause_status s then ongoing else s)
    status_read s = ground arith

    terminated_kept : (s : Status) → is_channel_terminated (new_status s) ≡ is_channel_terminated s
    terminated_kept s = ground arith

    cleaning_kept : (s : Status) → is_channel_cleaning_up (new_status s) ≡ is_channel_cleaning_up s
    cleaning_kept s = ground arith

    accepted_kept : (s : Status) → is_accepted (new_status s) ≡ is_accepted s
    accepted_kept s = ground arith

    complete_kept : (s : Status) → transfer_complete (new_status s) ≡ transfer_complete s
    complete_kept s = ground arith

    responder_seen :
        (s : Status)
        → ((status_eq s responder_paused || status_eq s both_paused)
            || status_eq (new_status s) finalizing)
          ≡ (status_eq s responder_paused || status_eq s both_paused || status_eq s finalizing)
    responder_seen s = ground arith

    both_seen :
        (s : Status)
        → ((status_eq s initiator_paused || status_eq s both_paused)
            && ((status_eq s responder_paused || status_eq s both_paused)
                || status_eq (new_status s) finalizing))
          ≡ status_eq s both_paused
    both_seen s = ground arith
