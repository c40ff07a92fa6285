-- ===== src/Channels/Fsm/Machine/Status.antt =====
-- How events of channels/channels_fsm.go move the status.
use go_data_transfer.Base.{
  ℕ, ◌≡◌, ◌∙◌, ap, ◌⊎◌, inl, inr, Bool, false, Option, some, arith, ◌>>=◌, >>=-eq-some,
}
use go_data_transfer.Statuses.{Status}
use go_data_transfer.Events.{EventCode, open_channel}
use go_data_transfer.Channels.Internal.{ChannelState, add_log}
use go_data_transfer.Channels.Fsm.Table.{Target, to, no_change, just_record}
use go_data_transfer.Channels.Fsm.Finality.{channel_parameters, is_channel_terminated}
use go_data_transfer.Channels.Fsm.Engine.{
  Args, Engine, documented, find_event, target_of, run_action, land, apply_entry,
}
use go_data_transfer.Channels.Fsm.Machine.{Input, Took, effect, effect-Took, receive, receive-cases}

-- Where the table sends an event from a status.
unfoldable pub moves : EventCode → Status → Option Target
moves e s = find_event e channel_parameters.events >>= λ d. target_of s d.transitions

abbrev pub goes : Target → Status → Status
goes (to s) _ = s
goes no_change s = s
goes just_record s = s

pub moves-Took :
    {ch : ChannelState} {i : Input} {r : ChannelState × Bool} (k : Took ch i r)
    → moves i.code ch.status ≡ some k.target
unfolding moves
moves-Took k = rw k.found k.targeted

-- No action touches the status.
pub effect-status :
    (e : EventCode) (a : Args) (now : ℕ) (ch ch' : ChannelState)
    → effect e a now ch ≡ some ch'
    → ch'.status ≡ ch.status
unfolding effect run_action add_log
effect-status open_channel a now ch ch' h = ground arith
effect-status _ a now ch ch' h = ground arith

pub land-status : (t : Target) (ch : ChannelState) → (land t ch).0.status ≡ goes t ch.status
unfolding land
land-status t ch = ground arith

pub Took-status :
    {ch : ChannelState} {i : Input} {r : ChannelState × Bool} (k : Took ch i r)
    → r.0.status ≡ goes k.target ch.status
Took-status {ch} {i} k = rw k.landed (
    land-status k.target k.acted
    ∙ ap (goes k.target) (effect-status i.code i.args i.now ch k.acted (effect-Took k)))

-- Refused, an event keeps the status; else the table says where it goes.
pub receive-status :
    (m : Engine) (ch : ChannelState) (i : Input)
    → ((receive m ch i).status ≡ ch.status)
      ⊎ ((t : Target) × (moves i.code ch.status ≡ some t)
          × ((receive m ch i).status ≡ goes t ch.status)
          × (is_channel_terminated ch.status ≡ false))
receive-status m ch i = elim (receive-cases m ch i) [
  | inl e ↦ inl (ap (λ (c : ChannelState). c.status) e)
  | inr (r, k, e) ↦
      inr (k.target, moves-Took k, ap (λ (c : ChannelState). c.status) e ∙ Took-status k, k.alive)
]

-- An event that the table knows from here, with arguments that fit, is accepted.
pub process_accepted :
    (m : Engine) (ch : ChannelState) (i : Input) (t : Target) (c : ChannelState)
    → is_channel_terminated ch.status ≡ false
    → moves i.code ch.status ≡ some t
    → effect i.code i.args i.now ch ≡ some c
    → m.process channel_parameters i.code i.args i.now ch ≡ some (land t c)
unfolding documented apply_entry effect moves
process_accepted m ch i t c alive mv ef =
    let (d, found, targeted) = >>=-eq-some (find_event i.code channel_parameters.events) _ mv in
    let acted : run_action d.action i.args i.now ch ≡ some c = rw found at ef in
    rw (m.process_lem, alive, found, targeted, acted)

pub receive_accepted :
    (m : Engine) (ch : ChannelState) (i : Input) (t : Target) (c : ChannelState)
    → is_channel_terminated ch.status ≡ false
    → moves i.code ch.status ≡ some t
    → effect i.code i.args i.now ch ≡ some c
    → receive m ch i ≡ (land t c).0
unfolding receive
receive_accepted m ch i t c alive mv ef = rw (process_accepted m ch i t c alive mv ef)

pub receive-goes :
    (m : Engine) (ch : ChannelState) (i : Input) (t : Target) (c : ChannelState)
    → is_channel_terminated ch.status ≡ false
    → moves i.code ch.status ≡ some t
    → effect i.code i.args i.now ch ≡ some c
    → (receive m ch i).status ≡ goes t ch.status
receive-goes m ch i t c alive mv ef =
    ap (λ (x : ChannelState). x.status) (receive_accepted m ch i t c alive mv ef)
    ∙ land-status t c
    ∙ ap (goes t) (effect-status i.code i.args i.now ch c ef)
