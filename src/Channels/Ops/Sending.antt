-- ===== src/Channels/Ops/Sending.antt =====
-- What an operation of channels/channels.go that sends an event does, for each kind of channel.
use go_data_transfer.Base.{◌≡◌, refl, true, none, some}
use go_data_transfer.Events.{EventCode}
use go_data_transfer.Types.{ChannelId}
use go_data_transfer.Errors.{ok, terminated}
use go_data_transfer.Channels.Internal.{ChannelState}
use go_data_transfer.Channels.Fsm.Finality.{is_channel_terminated}
use go_data_transfer.Channels.Fsm.Engine.{Args, nothing}
use go_data_transfer.Channels.Group.{Group}
use go_data_transfer.Channels.Ops.{Channels, send, cancel, machine_send, check_channel_exists}

module _ (g : Group) where
  pub check_present :
      (chid : ChannelId) (code : EventCode) (c : Channels g) (ch : ChannelState)
      → g.get_sync c.store chid ≡ ok ch
      → check_channel_exists g c chid code ≡ none
  unfolding check_channel_exists
  check_present chid code c ch h = rw (g.has-get_sync c.store chid ch h, check_channel_exists) refl

  pub send_over :
      (chid : ChannelId) (code : EventCode) (args : Args) (c : Channels g) (ch : ChannelState)
      → g.get_sync c.store chid ≡ ok ch
      → is_channel_terminated ch.status ≡ true
      → send g chid code args c ≡ (c, some terminated)
  unfolding send machine_send
  send_over chid code args c ch h over =
      rw
        (
          check_present chid code c ch h,
          g.send_terminated c.store chid code args ch h over,
          send,
          machine_send,
        )
        refl

  -- Cancelling a channel that is over has no error and changes nothing; any event sent to it is
  -- refused as terminated, and changes nothing either.
  pub cancel_over :
      (chid : ChannelId) (code : EventCode) (args : Args) (c : Channels g) (ch : ChannelState)
      → g.get_sync c.store chid ≡ ok ch
      → is_channel_terminated ch.status ≡ true
      → (cancel g chid c ≡ (c, none)) × (send g chid code args c ≡ (c, some terminated))
  unfolding cancel send machine_send
  cancel_over chid code args c ch h over = (
    rw (send_over chid EventCode.cancel nothing c ch h over, cancel) refl,
    send_over chid code args c ch h over,
  )
