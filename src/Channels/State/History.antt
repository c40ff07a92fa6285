-- ===== src/Channels/State/History.antt =====
-- The vouchers of a channel, as its view reads them.
use go_data_transfer.Base.{◌≡◌, refl, ◌≢◌, ap, false, List, [], ◌∷◌, some, last?-append, ℕ}
use go_data_transfer.Events.{new_voucher}
use go_data_transfer.Types.{TypedVoucher}
use go_data_transfer.Channels.Internal.{ChannelState, EncodedVoucher, add_log}
use go_data_transfer.Channels.Fsm.Table.{Target}
use go_data_transfer.Channels.Fsm.Finality.{is_channel_terminated}
use go_data_transfer.Channels.Fsm.Engine.{Engine, a_voucher, run_action, land}
use go_data_transfer.Channels.Fsm.Machine.{Input, effect, receive, run}
use go_data_transfer.Channels.Fsm.Machine.Progress.{Extends, run-Grows}
use go_data_transfer.Channels.Fsm.Machine.Status.{moves, receive_accepted}
use go_data_transfer.Channels.State.{first_voucher, voucher, last_voucher}

first_voucher-Extends :
    (xs ys : List EncodedVoucher) → xs ≢ [] → Extends xs ys → first_voucher ys ≡ first_voucher xs
first_voucher-Extends [] ys n h = absurd (n refl)
first_voucher-Extends (x ∷ xs) ys n (zs, e) = ap first_voucher e

-- The voucher with which a channel was opened stays its first voucher, whatever events follow.
pub run-voucher :
    (m : Engine) (c : ChannelState) (is : List Input)
    → c.vouchers ≢ []
    → voucher (run m c is) ≡ voucher c
run-voucher m c is n =
    first_voucher-Extends c.vouchers (run m c is).vouchers n (run-Grows m c is).vouchers

-- On a live channel, in any status, a new voucher becomes the last one.
receive-last_voucher :
    (m : Engine) (c : ChannelState) (v : TypedVoucher) (now : ℕ)
    → is_channel_terminated c.status ≡ false
    → last_voucher (receive m c (record { code = new_voucher; args = a_voucher v; now = now }))
      ≡ some v
unfolding moves effect run_action land add_log last_voucher
receive-last_voucher m c v now live =
    rw
      (receive_accepted m c (record { code = new_voucher; args = a_voucher v; now = now })
        Target.no_change _ live refl refl)
      (rw (last?-append c.vouchers (record { type_id = v.type_id; voucher = v.voucher })) refl)
