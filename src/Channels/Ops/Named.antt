-- ===== src/Channels/Ops/Named.antt =====
-- The operations of channels/channels.go that send one event.
use go_data_transfer.Base.{Bool, String}
use go_data_transfer.Events.{EventCode}
use go_data_transfer.Types.{TypedVoucher, ChannelId}
use go_data_transfer.Channels.Fsm.Engine.{nothing, a_flag, an_error, a_voucher}
use go_data_transfer.Channels.Group.{Group}
use go_data_transfer.Channels.Ops.{Op, send}

module _ (g : Group) where
  abbrev pub accept : ChannelId → Op g
  accept chid = send g chid EventCode.accept nothing

  abbrev pub channel_opened : ChannelId → Op g
  channel_opened chid = send g chid EventCode.opened nothing

  abbrev pub transfer_initiated : ChannelId → Op g
  transfer_initiated chid = send g chid EventCode.transfer_initiated nothing

  abbrev pub restart : ChannelId → Op g
  restart chid = send g chid EventCode.restart nothing

  abbrev pub complete_cleanup_on_restart : ChannelId → Op g
  complete_cleanup_on_restart chid = send g chid EventCode.complete_cleanup_on_restart nothing

  abbrev pub pause_initiator : ChannelId → Op g
  pause_initiator chid = send g chid EventCode.pause_initiator nothing

  abbrev pub pause_responder : ChannelId → Op g
  pause_responder chid = send g chid EventCode.pause_responder nothing

  abbrev pub resume_initiator : ChannelId → Op g
  resume_initiator chid = send g chid EventCode.resume_initiator nothing

  abbrev pub resume_responder : ChannelId → Op g
  resume_responder chid = send g chid EventCode.resume_responder nothing

  abbrev pub new_voucher : ChannelId → TypedVoucher → Op g
  new_voucher chid voucher = send g chid EventCode.new_voucher (a_voucher voucher)

  abbrev pub new_voucher_result : ChannelId → TypedVoucher → Op g
  new_voucher_result chid result = send g chid EventCode.new_voucher_result (a_voucher result)

  abbrev pub complete : ChannelId → Op g
  complete chid = send g chid EventCode.complete nothing

  abbrev pub finish_transfer : ChannelId → Op g
  finish_transfer chid = send g chid EventCode.finish_transfer nothing

  abbrev pub responder_completes : ChannelId → Op g
  responder_completes chid = send g chid EventCode.responder_completes nothing

  abbrev pub responder_begins_finalization : ChannelId → Op g
  responder_begins_finalization chid = send g chid EventCode.responder_begins_finalization nothing

  abbrev pub begin_finalizing : ChannelId → Op g
  begin_finalizing chid = send g chid EventCode.begin_finalizing nothing

  abbrev pub error : ChannelId → String → Op g
  error chid text = send g chid EventCode.error (an_error text)

  abbrev pub disconnected : ChannelId → String → Op g
  disconnected chid text = send g chid EventCode.disconnected (an_error text)

  abbrev pub request_cancelled : ChannelId → String → Op g
  request_cancelled chid text = send g chid EventCode.request_cancelled (an_error text)

  abbrev pub send_data_error : ChannelId → String → Op g
  send_data_error chid text = send g chid EventCode.send_data_error (an_error text)

  abbrev pub receive_data_error : ChannelId → String → Op g
  receive_data_error chid text = send g chid EventCode.receive_data_error (an_error text)

  abbrev pub set_requires_finalization : ChannelId → Bool → Op g
  set_requires_finalization chid flag =
      send g chid EventCode.set_requires_finalization (a_flag flag)
