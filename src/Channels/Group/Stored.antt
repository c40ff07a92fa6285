-- ===== src/Channels/Group/Stored.antt =====
-- A group that keeps what it is documented to keep, in memory: the assumptions can be met.
use go_data_transfer.Base.{
  ℕ, suc, ◌≡◌, refl, Bool, true, false, [], Option, none, some, if◌then◌else◌, inl, inr, Bool-cases,
}
use go_data_transfer.Events.{EventCode}
use go_data_transfer.Types.{ChannelId, channel_id_eq, channel_id_eq_refl}
use go_data_transfer.Errors.{Err, Result, ok, err, terminated, other}
use go_data_transfer.Channels.Internal.{ChannelState}
use go_data_transfer.Channels.Fsm.Finality.{is_channel_terminated}
use go_data_transfer.Channels.Fsm.Engine.{Args}
use go_data_transfer.Channels.Fsm.Machine.{effect}
use go_data_transfer.Channels.Group.{Group, next_state}

pub record Memory : Type 0 where
  pub time : ℕ
  pub channels : ChannelId → Option ChannelState

abbrev pub put : Memory → ChannelId → ChannelState → Memory
put s c ch = record s {
  time = suc s.time;
  channels = λ d. if channel_id_eq c d then some ch else s.channels d;
}

abbrev pub found : Option ChannelState → Result ChannelState
found none = err (other "not found")
found (some ch) = ok ch

abbrev pub has_state : Option ChannelState → Bool
has_state none = false
has_state (some ch) = true

abbrev pub begin_at : Memory → ChannelId → ChannelState → Option ChannelState → Memory × Option Err
begin_at s c ch none = (put s c ch, none)
begin_at s c ch (some old) = (s, some (other "already tracking"))

abbrev pub fits : Option ChannelState → Option Err
fits none = some (other "bad arguments")
fits (some ch) = none

abbrev pub send_at :
    Memory → ChannelId → EventCode → Args → Option ChannelState → Memory × Option Err
send_at s c e a none = (s, some (other "not found"))
send_at s c e a (some ch) =
    if is_channel_terminated ch.status
    then (s, some terminated)
    else (put s c (next_state s.time e a ch), fits (effect e a s.time ch))

pub found-ok : (o : Option ChannelState) (ch : ChannelState) → found o ≡ ok ch → o ≡ some ch
found-ok none ch h = cc
found-ok (some c) ch h = cc

pub has_state-false : (o : Option ChannelState) → ok (has_state o) ≡ ok false → o ≡ none
has_state-false none h = refl
has_state-false (some c) h = cc

pub send_at-other :
    (s : Memory) (c d : ChannelId) (e : EventCode) (a : Args) (o : Option ChannelState)
    → channel_id_eq c d ≡ false
    → found ((send_at s c e a o).0.channels d) ≡ found (s.channels d)
send_at-other s c d e a none apart = refl
send_at-other s c d e a (some ch) apart = elim (Bool-cases (is_channel_terminated ch.status)) [
  | inl over ↦ rw over
  | inr live ↦ rw (live, apart)
]

abbrev pub memory_group : Group
memory_group = record {
  Store = Memory;
  clock = λ s. s.time;
  has = λ s c. ok (has_state (s.channels c));
  begin = λ s c ch. begin_at s c ch (s.channels c);
  send = λ s c e a. send_at s c e a (s.channels c);
  get_sync = λ s c. found (s.channels c);
  list = λ s. ok [];
  has-get_sync = λ s c ch h. rw (found-ok (s.channels c) ch h);
  get_sync-begin =
      λ s c ch h. rw (has_state-false (s.channels c) h, channel_id_eq_refl c) (refl, refl);
  get_sync-send =
      λ s c e a ch h live calm. rw (found-ok (s.channels c) ch h, live, channel_id_eq_refl c);
  send_accepts = λ s c e a ch ch' h live ef. rw (found-ok (s.channels c) ch h, live, ef);
  send_terminated = λ s c e a ch h over. rw (found-ok (s.channels c) ch h, over);
  get_sync-send_other = λ s c d e a apart. send_at-other s c d e a (s.channels c) apart;
}
