-- ===== src/Manager/Lifecycle.antt =====
-- impl/impl.go: a new manager, what is registered with it, and what it tells of its channels.
use go_data_transfer.Base.{ℕ, List, [], Option, none, some, String, ◌>>=◌}
use go_data_transfer.Types.{ChannelId, TypeIdentifier}
use go_data_transfer.Errors.{Err, Result, ok, err, wrapped}
use go_data_transfer.Channels.Internal.{ChannelState}
use go_data_transfer.Channels.Group.{Group}
use go_data_transfer.Channels.Ops.{new_channels, get_by_id, in_progress}
use go_data_transfer.ChannelMonitor.{Config, new_monitor}
use go_data_transfer.Registry.{register, new_registry}
use go_data_transfer.Manager.World.{Manager, Step, Validator}

abbrev pub wrapping : String → Option Err → Option Err
wrapping text none = none
wrapping text (some e) = some (wrapped text e)

module _ (g : Group) where
  -- `opened` is what the group of state machines gives, `cfg` what the options set, and `now` the time
  -- that the counter starts from. `none` is the panic of a bad configuration of the monitor.
  unfoldable pub new_data_transfer :
      Result g.Store → Option Config → ℕ → Option (Result (Manager g))
  new_data_transfer opened cfg now = elim opened [
    | err e ↦ some (err e)
    | ok store ↦ new_monitor cfg >>= λ monitor. some (
        ok (record {
          channels = new_channels g store;
          validated_types = new_registry;
          transport_configurers = new_registry;
          channel_monitor = monitor;
          transfer_id_gen = now;
          calls = [];
        }))
  ]

  unfoldable pub register_voucher_type : TypeIdentifier → Validator → Step g (Option Err)
  register_voucher_type voucher_type validator s =
      let (r, e) = register s.validated_types voucher_type validator in
      some (record s { validated_types = r }, wrapping "error registering voucher type" e)

  unfoldable pub register_transport_configurer : TypeIdentifier → ℕ → Step g (Option Err)
  register_transport_configurer voucher_type configurer s =
      let (r, e) = register s.transport_configurers voucher_type configurer in
      some (
        record s { transport_configurers = r },
        wrapping "error registering transport configurer" e,
      )

  abbrev pub channel_state : ChannelId → Manager g → Result ChannelState
  channel_state chid s = get_by_id g s.channels chid

  abbrev pub in_progress_channels : Manager g → Result (List (ChannelId × ChannelState))
  in_progress_channels s = in_progress g s.channels
