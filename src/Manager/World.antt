-- ===== src/Manager/World.antt =====
-- The manager of impl/impl.go: its state, and what it calls of the network and of the transport.
-- These are interfaces, so what they answer is a parameter; what they are asked is recorded.
use go_data_transfer.Base.{ℕ, Bool, true, false, List, ◌∷◌, Option, none, some, String}
use go_data_transfer.Types.{Peer, Cid, Node, TypedVoucher, ChannelId}
use go_data_transfer.Errors.{Err, ok, err}
use go_data_transfer.Channels.Internal.{ChannelState}
use go_data_transfer.Channels.Group.{Group}
use go_data_transfer.Channels.Ops.{Channels, Op, get_by_id}
use go_data_transfer.Registry.{Registry}
use go_data_transfer.Validation.{ValidationResult}
use go_data_transfer.ChannelMonitor.{Monitor}
use go_data_transfer.Messages.Wire.{Message}

-- A `RequestValidator` of the client.
pub record Validator : Type 0 where
  pub validate_push : ChannelId → Peer → Option Node → Cid → Node → ValidationResult × Option Err
  pub validate_pull : ChannelId → Peer → Option Node → Cid → Node → ValidationResult × Option Err
  pub validate_restart : ChannelId → ChannelState → ValidationResult × Option Err

-- A call of the network, of the transport or of a transport configurer, which is a token.
pub data Call : Type 0 where
  send_message : Peer → Message → Call
  open_transfer : Peer → ChannelId → Cid → Option Node → Option ChannelState → Message → Call
  close_transfer pause_transfer cleanup_transfer : ChannelId → Call
  resume_transfer : Option Message → ChannelId → Call
  protect : Peer → ChannelId → Call
  configure : ℕ → ChannelId → TypedVoucher → Call

-- What does not change: this peer, whether the transport is a `PauseableTransport`, `ipld.Null` and
-- `ipld.DeepEqual`, the text of an error, and the answer to a call, given the calls before it.
pub record Setup : Type 0 where
  pub peer_id : Peer
  pub pauseable : Bool
  pub null : Node
  pub deep_equal : Option Node → Option Node → Bool
  pub text : Err → String
  pub answer : List Call → Call → Option Err

pub record Manager (g : Group) : Type 0 where
  pub channels : Channels g
  pub validated_types : Registry Validator
  pub transport_configurers : Registry ℕ
  pub channel_monitor : Monitor
  -- the counter of the `timeCounter`
  pub transfer_id_gen : ℕ
  -- latest first
  pub calls : List Call

-- A computation of the manager; `none` is a panic.
abbrev pub Step {ℓ} : Group → Type ℓ → Type ℓ
Step g A = Manager g → Option (Manager g × A)

infixl 5 ◌>>=◌ ◌>>◌
abbrev pub ◌>>=◌ {ℓ κ} :
    {g : Group} {A : Type ℓ} {B : Type κ} → Step g A → (A → Step g B) → Step g B
◌>>=◌ m f s = elim (m s) [ none ↦ none | some (s', a) ↦ f a s' ]

abbrev pub ◌>>◌ {ℓ κ} : {g : Group} {A : Type ℓ} {B : Type κ} → Step g A → Step g B → Step g B
m >> k = m >>= λ _. k

abbrev pub done {ℓ} : {g : Group} {A : Type ℓ} → A → Step g A
done a s = some (s, a)

abbrev pub panic {ℓ} : {g : Group} {A : Type ℓ} → Step g A
panic s = none

-- `if err := m; err != nil { return failed }`, then `next`.
abbrev pub attempt {ℓ} :
    {g : Group} {A : Type ℓ} → Step g (Option Err) → (Err → Step g A) → Step g A → Step g A
attempt m failed next = m >>= λ e. elim e [ none ↦ next | some x ↦ failed x ]

abbrev pub on_channels : {g : Group} → Op g → Step g (Option Err)
on_channels op s = let (c, e) = op s.channels in some (record s { channels = c }, e)

abbrev pub call : {g : Group} → Setup → Call → Step g (Option Err)
call p k s = some (record s { calls = k ∷ s.calls }, p.answer s.calls k)

-- A call that returns nothing.
abbrev pub tell : {g : Group} → Call → Step g (Unit {0})
tell k s = some (record s { calls = k ∷ s.calls }, tt)

-- `m.channels.GetByID`
abbrev pub fetch {ℓ} :
    {g : Group} {A : Type ℓ} → ChannelId → (Err → Step g A) → (ChannelState → Step g A) → Step g A
fetch {g = g} chid failed next s = elim (get_by_id g s.channels chid) [
  | err e ↦ failed e s
  | ok chst ↦ next chst s
]

-- `m.transport.(datatransfer.PauseableTransport)`
abbrev pub asserting_pauseable {ℓ} : {g : Group} {A : Type ℓ} → Setup → Step g A → Step g A
asserting_pauseable p m = elim p.pauseable [ true ↦ m | false ↦ panic ]
