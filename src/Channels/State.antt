-- ===== src/Channels/State.antt =====
-- channels/channel_state.go: the view of a channel. `channelState` wraps the stored state `ic`, and
-- `fromInternalChannelState` wraps; the model reads the stored state itself. A method that returns a
-- field is that field.
pub mod Parties
pub mod History
use go_data_transfer.Base.{
  Bool, ◌&&◌, ◌||◌, List, [], ◌∷◌, map, Option, none, some, ◌==◌, if◌then◌else◌, last?,
}
use go_data_transfer.Statuses.{finalizing, status_eq}
use go_data_transfer.Types.{Peer, TypedVoucher, ChannelId, ChannelStages}
use go_data_transfer.Channels.Internal.{ChannelState, EncodedVoucher, EncodedVoucherResult}

abbrev pub typed_voucher : EncodedVoucher → TypedVoucher
typed_voucher ev = record { voucher = ev.voucher; type_id = ev.type_id }

abbrev pub typed_voucher_result : EncodedVoucherResult → TypedVoucher
typed_voucher_result evr = record { voucher = evr.voucher_result; type_id = evr.type_id }

-- The first voucher, or the zero value.
abbrev pub first_voucher : List EncodedVoucher → TypedVoucher
first_voucher [] = record { voucher = none; type_id = "" }
first_voucher (ev ∷ _) = typed_voucher ev

abbrev pub voucher : ChannelState → TypedVoucher
voucher c = first_voucher c.vouchers

abbrev pub is_pull : ChannelState → Bool
is_pull c = c.initiator == c.recipient

unfoldable pub channel_id : ChannelState → ChannelId
channel_id c =
    if is_pull c
    then record { initiator = c.recipient; responder = c.sender; id = c.transfer_id }
    else record { initiator = c.sender; responder = c.recipient; id = c.transfer_id }

abbrev pub vouchers : ChannelState → List TypedVoucher
vouchers c = map typed_voucher c.vouchers

abbrev pub voucher_results : ChannelState → List TypedVoucher
voucher_results c = map typed_voucher_result c.voucher_results

abbrev typed_or_panic {ℓ} : {A : Type ℓ} → (A → TypedVoucher) → Option A → Option TypedVoucher
typed_or_panic f none = none
typed_or_panic f (some a) = some (f a)

-- The two below index the last entry; `none` is the panic on an empty list.
unfoldable pub last_voucher : ChannelState → Option TypedVoucher
last_voucher c = typed_or_panic typed_voucher (last? c.vouchers)

unfoldable pub last_voucher_result : ChannelState → Option TypedVoucher
last_voucher_result c = typed_or_panic typed_voucher_result (last? c.voucher_results)

unfoldable pub other_peer : ChannelState → Peer
other_peer c = if c.sender == c.self_peer then c.recipient else c.sender

abbrev pub responder_paused : ChannelState → Bool
responder_paused c = c.responder_paused || status_eq c.status finalizing

abbrev pub both_paused : ChannelState → Bool
both_paused c = c.initiator_paused && responder_paused c

abbrev pub self_paused : ChannelState → Bool
self_paused c = if c.self_peer == c.initiator then c.initiator_paused else responder_paused c

abbrev pub stages_or_empty : Option ChannelStages → ChannelStages
stages_or_empty none = []
stages_or_empty (some ss) = ss

abbrev pub stages : ChannelState → ChannelStages
stages c = stages_or_empty c.stages
