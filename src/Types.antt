-- ===== src/Types.antt =====
-- types.go: identifiers, vouchers, and the timeline of stages and logs of a channel.
-- Peer IDs, CIDs and IPLD nodes are values of other packages that the program stores, passes on and
-- compares; each is represented by a native number. A node that may be nil is an `Option`.
-- Strings are strings; a time is a number of nanoseconds.
mod Stages
unfoldable pub use Stages.*
use go_data_transfer.Base.{
  ℕ, ◌≡◌, ◌↔◌, true, arith, Bool, ◌&&◌, Option, String, str_eq, ◌==◌, if◌then◌else◌,
}

abbrev pub Peer : Type 0
Peer = ℕ

abbrev pub Cid : Type 0
Cid = ℕ

abbrev pub Node : Type 0
Node = ℕ

abbrev pub TransferId : Type 0
TransferId = ℕ

abbrev pub TypeIdentifier : Type 0
TypeIdentifier = String

abbrev pub empty_type_identifier : TypeIdentifier
empty_type_identifier = ""

pub record TypedVoucher : Type 0 where
  pub voucher : Option Node
  pub type_id : TypeIdentifier

-- `ipld.DeepEqual` is the parameter.
abbrev pub typed_voucher_equals :
    (Option Node → Option Node → Bool) → TypedVoucher → TypedVoucher → Bool
typed_voucher_equals deep_equal tv1 tv2 =
    str_eq tv1.type_id tv2.type_id && deep_equal tv1.voucher tv2.voucher

pub record ChannelId : Type 0 where
  pub initiator : Peer
  pub responder : Peer
  pub id : TransferId

-- Go's `==` on the struct.
abbrev pub channel_id_eq : ChannelId → ChannelId → Bool
channel_id_eq a b = a.initiator == b.initiator && a.responder == b.responder && a.id == b.id

abbrev pub other_party : ChannelId → Peer → Peer
other_party c this_peer = if this_peer == c.initiator then c.responder else c.initiator

pub channel_id_eq_refl : (c : ChannelId) → channel_id_eq c c ≡ true
channel_id_eq_refl c = ground arith

pub channel_id_eq_iff : (a b : ChannelId) → (channel_id_eq a b ≡ true) ↔ (a ≡ b)
channel_id_eq_iff a b = ground arith
