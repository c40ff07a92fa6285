-- ===== src/Manager/Requests/Storing.antt =====
-- A channel that impl/receiving_requests.go has created, and its `Accept`, in the store.
use go_data_transfer.Base.{ℕ, ◌≡◌, refl, none}
use go_data_transfer.Statuses.{requested, queued}
use go_data_transfer.Events.{EventCode}
use go_data_transfer.Types.{ChannelId}
use go_data_transfer.Errors.{Result, ok, err, not_found}
use go_data_transfer.Channels.Internal.{ChannelState, add_log}
use go_data_transfer.Channels.Fsm.Table.{to}
use go_data_transfer.Channels.Fsm.Engine.{nothing, run_action, land}
use go_data_transfer.Channels.Fsm.Machine.{effect}
use go_data_transfer.Channels.Fsm.Machine.Status.{moves}
use go_data_transfer.Channels.State.{channel_id}
use go_data_transfer.Channels.Group.{Group}
use go_data_transfer.Channels.Ops.{Channels, get_by_id}
use go_data_transfer.Channels.Ops.Named.{accept}
use go_data_transfer.Channels.Ops.Taking.{send-land}

-- The channel after `Accept` at a time.
abbrev pub taken : ℕ → ChannelState → ChannelState
taken now ch = record (add_log now "" ch) { status = queued }

pub accept_stores :
    (g : Group) (chid : ChannelId) (c : Channels g) (ch : ChannelState)
    → g.get_sync c.store chid ≡ ok ch
    → ch.status ≡ requested
    → let r = accept g chid c in
      (g.get_sync r.0.store chid ≡ ok (taken (g.clock c.store) ch)) × (r.1 ≡ none)
unfolding land moves effect run_action add_log
accept_stores g chid c ch got new =
    let now : ℕ = g.clock c.store in
    send-land g chid EventCode.accept nothing c ch (add_log now "" ch) (to queued) got (rw new refl)
      (rw new refl) refl refl

pub taken-channel_id : (now : ℕ) (ch : ChannelState) → channel_id (taken now ch) ≡ channel_id ch
unfolding channel_id add_log
taken-channel_id now ch = refl

module _ (g : Group) where
  pub get_by_id-get_sync :
      (c : Channels g) (chid : ChannelId) (ch : ChannelState)
      → get_by_id g c chid ≡ ok ch
      → g.get_sync c.store chid ≡ ok ch
  unfolding get_by_id
  get_by_id-get_sync c chid ch h = found (g.get_sync c.store chid) h
    where
      found :
          (r : Result ChannelState)
          → ◌≡◌ {A = Result ChannelState}
              (elim r [ err e ↦ err (not_found chid) | ok x ↦ ok x ])
              (ok ch)
          → r ≡ ok ch
      found (ok x) h = h
      found (err e) h = cc
