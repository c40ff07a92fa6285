-- ===== src/Manager/Reports.antt =====
-- The reports of impl/events.go that send a message.
use go_data_transfer.Base.{ℕ, ℤ, Bool, true, not, ◌&&◌, Option, none, some, ◌==◌, if◌then◌else◌}
use go_data_transfer.Statuses.{status_eq, failing, failed}
use go_data_transfer.Types.{Cid, ChannelId}
use go_data_transfer.Errors.{Err, wrapped, is_pause}
use go_data_transfer.Channels.Group.{Group}
use go_data_transfer.Channels.Ops.Named.{error, finish_transfer, begin_finalizing, complete}
use go_data_transfer.Channels.Ops.Progress.{data_received}
use go_data_transfer.Messages.Build.{update_response, complete_response}
use go_data_transfer.Messages.Wire.{a_response}
use go_data_transfer.Manager.{on_request_disconnected}
use go_data_transfer.Manager.World.{
  Setup, Step, ◌>>=◌, done, attempt, on_channels, call, send_message, fetch,
}

module _ (g : Group) (p : Setup) where
  -- A pause is told to the initiator; an error of sending it comes in its place.
  unfoldable pub on_data_received : ChannelId → Cid → ℕ → ℤ → Bool → Step g (Option Err)
  on_data_received chid k size index unique = do
    e ← on_channels (data_received g chid k size index unique)
    if is_pause e
        then attempt
            (call p (send_message chid.initiator (a_response (update_response chid.id true))))
            (λ failure. done (some failure)) (done e)
        else done e

  unfoldable pub on_channel_completed : ChannelId → Option Err → Step g (Option Err)
  on_channel_completed chid complete_err =
      fetch chid (λ e. done (some e))
        λ chst. elim complete_err [
          | some failure ↦
              if not (status_eq chst.status failing) && not (status_eq chst.status failed)
              then on_channels (
                  error g chid
                    (p.text (wrapped "data transfer channel failed to transfer data" failure)))
              else done none
          | none ↦
              if chid.initiator == p.peer_id
              then on_channels (finish_transfer g chid)
              else attempt
                  (call p (
                    send_message chid.initiator (
                      a_response (
                        complete_response p.null chst.transfer_id true chst.requires_finalization
                          none))))
                  (λ failure. on_channels (
                    on_request_disconnected g p.peer_id chid
                      (p.text (wrapped "failed to send completion message to initiator" failure))))
                  (if chst.requires_finalization
                    then on_channels (begin_finalizing g chid)
                    else on_channels (complete g chid))
        ]
