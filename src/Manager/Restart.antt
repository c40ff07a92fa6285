-- ===== src/Manager/Restart.antt =====
-- impl/restart.go, and the part of impl/impl.go that restarts a channel.
pub mod Composition
pub mod Configuring
pub mod Matching
use go_data_transfer.Base.{
  Bool, true, false, not, Option, none, some, String, ◌==◌, str_eq, if◌then◌else◌,
}
use go_data_transfer.Types.{Peer, ChannelId, TypedVoucher}
use go_data_transfer.Errors.{Err, ok, err, other, wrapped, rejected}
use go_data_transfer.Channels.Internal.{ChannelState}
use go_data_transfer.Channels.Fsm.Finality.{is_channel_terminated, is_channel_cleaning_up}
use go_data_transfer.Channels.State.{channel_id, voucher, other_peer, is_pull}
use go_data_transfer.Channels.Group.{Group}
use go_data_transfer.Channels.Ops.{Channels, get_by_id}
use go_data_transfer.Channels.Ops.Named.{complete_cleanup_on_restart}
use go_data_transfer.Registry.{processor}
use go_data_transfer.Validation.{ValidationResult}
use go_data_transfer.ChannelMonitor.{add_channel, on_monitored_channel_shutdown}
use go_data_transfer.Messages.Request
use go_data_transfer.Messages.Request.{TransferRequest}
use go_data_transfer.Messages.Build.{new_request, restart_existing_channel_request}
use go_data_transfer.Messages.Wire.{a_request}
use go_data_transfer.Manager.World.{
  Setup, Step, Call, send_message, open_transfer, protect, configure, ◌>>=◌, ◌>>◌, done, attempt,
  on_channels, call, tell, fetch,
}

pub data ChannelDataTransferType : Type 0 where
  manager_peer_create_pull manager_peer_create_push : ChannelDataTransferType
  manager_peer_receive_pull manager_peer_receive_push : ChannelDataTransferType

abbrev pub channel_data_transfer_type : Peer → ChannelState → ChannelDataTransferType
channel_data_transfer_type self channel =
    let initiator : Peer = (channel_id channel).initiator in
    if is_pull channel
    then (if initiator == self then manager_peer_create_pull else manager_peer_receive_pull)
    else (if initiator == self then manager_peer_create_push else manager_peer_receive_push)

-- `validateRestart` of impl/receiving_requests.go. A voucher type without a validator is a panic.
unfoldable pub validate_restart :
    {g : Group} → ChannelState → Step g (ValidationResult × Option Err)
validate_restart chst s = elim (processor s.validated_types (voucher chst).type_id) [
  | none ↦ none
  | some validator ↦ some (s, validator.validate_restart (channel_id chst) chst)
]

-- The configurer of the voucher's type is run, if there is one.
unfoldable pub configure_transport : {g : Group} → ChannelId → TypedVoucher → Step g (Unit {0})
configure_transport chid v s = elim (processor s.transport_configurers v.type_id) [
  | none ↦ some (s, tt)
  | some configurer ↦ tell (configure configurer chid v) s
]

-- `AddPushChannel` and `AddPullChannel`: whether there is a monitored channel to shut down later.
abbrev pub monitor_channel : {g : Group} → ChannelId → Step g Bool
monitor_channel chid s =
    let (m, made) = add_channel s.channel_monitor chid in
    some (record s { channel_monitor = m }, made)

-- `if monitoredChan != nil { monitoredChan.Shutdown() }`
abbrev pub stop_monitoring : {g : Group} → ChannelId → Bool → Step g (Unit {0})
stop_monitoring chid made s = elim made [
  | true ↦
      some (record s { channel_monitor = on_monitored_channel_shutdown s.channel_monitor chid }, tt)
  | false ↦ some (s, tt)
]

module _ (g : Group) (p : Setup) where
  -- Both functions have this body.
  unfoldable pub restart_manager_peer_receive : ChannelState → Step g (Option Err)
  restart_manager_peer_receive channel = do
    (result, e) ← validate_restart channel
    elim e [
      | some x ↦ done (some (wrapped "failed to restart channel, validation error" x))
      | none ↦
          if not result.accepted
          then done (some rejected)
          else attempt
              (call p (
                send_message (other_peer channel)
                  (a_request (restart_existing_channel_request (channel_id channel)))))
              (λ x. done (some (wrapped "unable to send restart request" x))) (done none)
    ]

  -- What both functions that open a restarted channel do, around the call `k` that starts it.
  abbrev pub restarting :
      Bool → (TransferRequest → Call) → String → ChannelState → Step g (Option Err)
  restarting pull k text channel =
      let v : TypedVoucher = voucher channel in
      let chid : ChannelId = channel_id channel in
      elim (new_request p.null chid.id true pull (some v) channel.base_cid channel.selector) [
        | err e ↦ done (some e)
        | ok req ↦ do
          configure_transport chid v
          tell (protect (other_peer channel) chid)
          made ← monitor_channel chid
          attempt (call p (k req)) (λ x. stop_monitoring chid made >> done (some (wrapped text x)))
              (done none)
      ]

  unfoldable pub open_push_restart_channel : ChannelState → Step g (Option Err)
  open_push_restart_channel channel =
      restarting false (λ req. send_message (other_peer channel) (a_request req))
        "Unable to send restart request" channel

  unfoldable pub open_pull_restart_channel : ChannelState → Step g (Option Err)
  open_pull_restart_channel channel =
      restarting true
        (λ req.
          open_transfer (other_peer channel) (channel_id channel) channel.base_cid channel.selector
            (some channel) (a_request req))
        "Unable to send open channel restart request" channel

  unfoldable pub restart_data_transfer_channel : ChannelId → Step g (Option Err)
  restart_data_transfer_channel chid =
      fetch chid (λ e. done (some (wrapped "failed to fetch channel" e)))
        λ channel.
          if is_channel_terminated channel.status
          then done none
          else if is_channel_cleaning_up channel.status
          then on_channels (complete_cleanup_on_restart g (channel_id channel))
          else elim (channel_data_transfer_type p.peer_id channel) [
            | manager_peer_receive_push ↦ restart_manager_peer_receive channel
            | manager_peer_receive_pull ↦ restart_manager_peer_receive channel
            | manager_peer_create_pull ↦ open_pull_restart_channel channel
            | manager_peer_create_push ↦ open_push_restart_channel channel
          ]

  -- The parameters of a restart request against the stored channel.
  unfoldable pub validate_restart_request :
      Channels g → Peer → ChannelId → TransferRequest → Option Err
  validate_restart_request c other_peer chid req = elim (get_by_id g c chid) [
    | err e ↦ some e
    | ok channel ↦
        if is_channel_terminated channel.status
        then some (other "channel is already terminated")
        else if not ((channel_id channel).initiator == other_peer)
        then some (other "other peer is not the initiator of the channel")
        else if not (Request.base_cid req == channel.base_cid)
        then some (other "base cid does not match")
        else elim (Request.voucher req) [
          | err e ↦ some (wrapped "failed to fetch request voucher" e)
          | ok req_voucher ↦
              if not (str_eq req.voucher_type_identifier (voucher channel).type_id)
              then some (other "channel and request voucher types do not match")
              else if not (p.deep_equal (some req_voucher) (voucher channel).voucher)
              then some (other "channel and request vouchers do not match")
              else none
        ]
  ]
