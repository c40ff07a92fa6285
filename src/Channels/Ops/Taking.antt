-- ===== src/Channels/Ops/Taking.antt =====
-- An event that channels/channels.go sends and that the table takes from the status of the channel.
use go_data_transfer.Base.{ℕ, ◌≡◌, refl, ap, ◌∙◌, false, none, some}
use go_data_transfer.Events.{EventCode}
use go_data_transfer.Types.{ChannelId}
use go_data_transfer.Errors.{ok}
use go_data_transfer.Channels.Internal.{ChannelState}
use go_data_transfer.Channels.Fsm.Table.{Target}
use go_data_transfer.Channels.Fsm.Finality.{is_channel_terminated, is_channel_cleaning_up}
use go_data_transfer.Channels.Fsm.Engine.{Args, documented_engine, land}
use go_data_transfer.Channels.Fsm.Machine.{effect, state_or}
use go_data_transfer.Channels.Fsm.Machine.Status.{
  moves, goes, process_accepted, land-status, effect-status,
}
use go_data_transfer.Channels.Group.{Group, next_state}
use go_data_transfer.Channels.Ops.{Channels, send, machine_send}
use go_data_transfer.Channels.Ops.Sending.{check_present}

pub next_state-land :
    (now : ℕ) (code : EventCode) (args : Args) (ch acted : ChannelState) (t : Target)
    → is_channel_terminated ch.status ≡ false
    → moves code ch.status ≡ some t
    → effect code args now ch ≡ some acted
    → next_state now code args ch ≡ (land t acted).0
next_state-land now code args ch acted t live mv ef = ap (state_or ch) (
    process_accepted documented_engine ch (record { code = code; args = args; now = now }) t acted
      live mv ef)

module _ (g : Group) (chid : ChannelId) (code : EventCode) (args : Args) (c : Channels g)
    (ch acted : ChannelState) (t : Target) where
  -- The state is stored as the event makes it, and there is no error.
  pub send-land :
      g.get_sync c.store chid ≡ ok ch
      → is_channel_terminated ch.status ≡ false
      → moves code ch.status ≡ some t
      → effect code args (g.clock c.store) ch ≡ some acted
      → is_channel_cleaning_up (goes t ch.status) ≡ false
      → let r = send g chid code args c in
        (g.get_sync r.0.store chid ≡ ok (land t acted).0) × (r.1 ≡ none)
  unfolding send machine_send
  send-land got live mv ef calm =
      let now : ℕ = g.clock c.store in
      let next = next_state-land now code args ch acted t live mv ef in
      let status = land-status t acted ∙ ap (goes t) (effect-status code args now ch acted ef) in
      let sent = g.get_sync-send c.store chid code args ch got live (rw (next, status) calm) in
      rw (check_present g chid code c ch got, send)
        (sent ∙ ap ok next, g.send_accepts c.store chid code args ch acted got live ef)

pub send-progress_cache :
    (g : Group) (chid : ChannelId) (code : EventCode) (args : Args) (c : Channels g)
    (ch : ChannelState)
    → g.get_sync c.store chid ≡ ok ch
    → (send g chid code args c).0.progress_cache ≡ c.progress_cache
unfolding send machine_send
send-progress_cache g chid code args c ch got = rw (check_present g chid code c ch got, send) refl
