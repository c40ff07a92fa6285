-- ===== src/Channels/Fsm/Machine.antt =====
-- One channel's state machine: events are processed one after another; an event that is refused
-- leaves the state as it was. Time stamps come with the events.
pub mod Identity
pub mod Progress
pub mod Status
pub mod Terminal
pub mod Completion
pub mod Cleanup
pub mod Resting
use go_data_transfer.Base.{
  ℕ, ◌≡◌, ◌⊎◌, inl, inr, Bool, false, List, [], ◌∷◌, Option, none, some, Option-cases, Bool-cases,
  ◌>>=◌, >>=-eq-some,
}
use go_data_transfer.Statuses.{contains}
use go_data_transfer.Events.{EventCode}
use go_data_transfer.Channels.Internal.{ChannelState}
use go_data_transfer.Channels.Fsm.Table.{Target, EventDesc}
use go_data_transfer.Channels.Fsm.Finality.{channel_finality_states, channel_parameters}
use go_data_transfer.Channels.Fsm.Engine.{
  Args, Engine, documented, find_event, target_of, run_action, land, apply_entry,
}

pub record Input : Type 0 where
  pub code : EventCode
  pub args : Args
  pub now : ℕ

abbrev pub state_or : ChannelState → Option (ChannelState × Bool) → ChannelState
state_or ch none = ch
state_or ch (some (ch', _)) = ch'

module _ (m : Engine) where
  unfoldable pub receive : ChannelState → Input → ChannelState
  receive ch i = state_or ch (m.process channel_parameters i.code i.args i.now ch)

  unfoldable pub run : ChannelState → List Input → ChannelState
  unfolding receive
  run ch [] = ch
  run ch (i ∷ is) = run (receive ch i) is

-- What an accepted event did: its entry was found, its target, its action and the landing.
pub record Took (ch : ChannelState) (i : Input) (r : ChannelState × Bool) : Type 0 where
  pub desc : EventDesc
  pub found : find_event i.code channel_parameters.events ≡ some desc
  pub target : Target
  pub targeted : target_of ch.status desc.transitions ≡ some target
  pub acted : ChannelState
  pub action : run_action desc.action i.args i.now ch ≡ some acted
  pub landed : r ≡ land target acted
  pub alive : contains channel_finality_states ch.status ≡ false

pub documented-Took :
    (ch : ChannelState) (i : Input) (r : ChannelState × Bool)
    → documented channel_parameters i.code i.args i.now ch ≡ some r
    → Took ch i r
unfolding documented apply_entry
documented-Took ch i r h = elim (Bool-cases (contains channel_finality_states ch.status)) [
  | inl over ↦ absurd (cc)
  | inr alive ↦
      let (d, found, applied) =
        >>=-eq-some (find_event i.code channel_parameters.events) _ (rw alive at h) in
      let (t, targeted, rest) = >>=-eq-some (target_of ch.status d.transitions) _ applied in
      let (c, action, landed) = >>=-eq-some (run_action d.action i.args i.now ch) _ rest in
      record {
        desc = d;
        found = found;
        target = t;
        targeted = targeted;
        acted = c;
        action = action;
        landed = cc;
        alive = alive;
      }
]

-- Either an event is refused and changes nothing, or it took.
pub receive-cases :
    (m : Engine) (ch : ChannelState) (i : Input)
    → (receive m ch i ≡ ch) ⊎ ((r : ChannelState × Bool) × Took ch i r × (receive m ch i ≡ r.0))
unfolding receive
receive-cases m ch i =
    rw (m.process_lem, receive)
      (elim (Option-cases (documented channel_parameters i.code i.args i.now ch)) [
        | inl e ↦ inl (rw e)
        | inr (r, e) ↦ inr (r, documented-Took ch i r e, rw e)
      ])

-- What the action of an event makes of a state, wherever it goes then.
unfoldable pub effect : EventCode → Args → ℕ → ChannelState → Option ChannelState
effect e a now ch = find_event e channel_parameters.events >>= λ d. run_action d.action a now ch

pub effect-Took :
    {ch : ChannelState} {i : Input} {r : ChannelState × Bool} (k : Took ch i r)
    → effect i.code i.args i.now ch ≡ some k.acted
unfolding effect
effect-Took k = rw k.found k.action

-- A relation that each accepted event establishes holds between the ends of a run.
module _ {ℓ} (R : ChannelState → ChannelState → Type ℓ) (reflexive : (c : ChannelState) → R c c)
    (transitive : (a b c : ChannelState) → R a b → R b c → R a c)
    (took : (c : ChannelState) (i : Input) (r : ChannelState × Bool) → Took c i r → R c r.0)
    (m : Engine) where
  pub receive_rel : (ch : ChannelState) (i : Input) → R ch (receive m ch i)
  receive_rel ch i = elim (receive-cases m ch i) [
    | inl e ↦ rw e (reflexive ch)
    | inr (r, k, e) ↦ rw e (took ch i r k)
  ]

  pub run_rel : (ch : ChannelState) (is : List Input) → R ch (run m ch is)
  unfolding run
  run_rel ch [] = reflexive ch
  run_rel ch (i ∷ is) =
      transitive ch (receive m ch i) (run m (receive m ch i) is) (receive_rel ch i)
        (run_rel (receive m ch i) is)
