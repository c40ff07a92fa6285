-- ===== src/Messages/Wire/RoundTrip.antt =====
-- A request that one peer makes is the request that the other peer reads.
use go_data_transfer.Base.{
  ◌≡◌, refl, arith, Bool, false, not, Option, none, some, ◌==◌, ==_refl, Bool-cases, inl, inr,
  if◌then◌else◌,
}
use go_data_transfer.Errors.{Result, ok, err, other}
use go_data_transfer.Types.{
  Node, Cid, TransferId, TypeIdentifier, TypedVoucher, empty_type_identifier,
}
use go_data_transfer.Messages.{or_empty, undef}
use go_data_transfer.Messages.Request.{
  TransferRequest, is_restart, is_new, is_update, is_cancel, is_restart_existing_channel_request,
  voucher, base_cid, selector,
}
use go_data_transfer.Messages.Build.{filled_request, new_request}
use go_data_transfer.Messages.Wire.{Codec, a_request, nullable, to_ipld, from_ipld}

-- What the reader of a message finds as its voucher, or voucher result: the node, unless none was
-- given, or a nil or a null one, which is an error.
abbrev pub node_read : Node → Option TypedVoucher → Result Node
node_read null none = err (other "No voucher present to read")
node_read null (some v) = elim v.voucher [
  | none ↦ err (other "No voucher present to read")
  | some n ↦ if n == null then err (other "No voucher present to read") else ok n
]

-- Nothing given has the empty type.
abbrev pub type_read : Option TypedVoucher → TypeIdentifier
type_read none = empty_type_identifier
type_read (some v) = v.type_id

-- The terms that a request asks for, as its reader sees them.
pub record Asks (null : Node) (id : TransferId) (restart pull : Bool) (v : Option TypedVoucher)
    (c : Cid) (s : Node) (r : TransferRequest) : Type 0 where
  pub id_as_made : r.transfer_id ≡ id
  pub restart_as_made : is_restart r ≡ restart
  pub new_as_made : is_new r ≡ not restart
  pub no_other :
      (is_update r ≡ false)
      × (is_cancel r ≡ false)
      × (is_restart_existing_channel_request r ≡ false)
  pub pull_as_made : r.pull ≡ pull
  pub voucher_as_made : voucher r ≡ node_read null v
  pub type_as_made : r.voucher_type_identifier ≡ type_read v
  pub base_cid_as_made : base_cid r ≡ c
  pub selector_as_made : selector r ≡ ok s

-- The request is made, and one with the terms is read from the wire.
abbrev pub Arrives :
    Codec
    → TransferId
    → Bool
    → Bool
    → Option TypedVoucher
    → Cid
    → Node
    → Result TransferRequest
    → Type 0
Arrives k id restart pull v c s (err e) = ⊥
Arrives k id restart pull v c s (ok r) =
    (r' : TransferRequest) × (from_ipld k (to_ipld k (a_request r)) ≡ ok (a_request r'))
    × Asks k.null id restart pull v c s r'

opened :
    (null : Node) (o : Option Node)
    → (elim (nullable null o) [ none ↦ err (other "No voucher present to read") | some n ↦ ok n ])
      ≡ (elim o [
        | none ↦ err (other "No voucher present to read")
        | some n ↦ if n == null then err (other "No voucher present to read") else ok n
      ])
opened null none = refl
opened null (some n) = elim (Bool-cases (n == null)) [ inl e ↦ rw e refl | inr e ↦ rw e refl ]

pub node_read-or_empty :
    (null : Node) (v : Option TypedVoucher)
    → (elim (nullable null (or_empty null v).voucher) [
      | none ↦ err (other "No voucher present to read")
      | some n ↦ ok n
    ])
      ≡ node_read null v
node_read-or_empty null none = rw (==_refl null) refl
node_read-or_empty null (some v) = opened null v.voucher

pub type_read-or_empty :
    (null : Node) (v : Option TypedVoucher) → (or_empty null v).type_id ≡ type_read v
type_read-or_empty null none = refl
type_read-or_empty null (some v) = refl

-- A new or restart request for a CID that is defined, with a selector that is not null, is made
-- without an error, and the peer that reads it from the wire finds the transfer ID, the kind and the
-- direction, the type and the node of the voucher, the base CID and the selector that it was made
-- with. A voucher that was left out, or is nil or null, is an error to its reader, as none is there;
-- one left out has the empty type.
pub new_request-Arrives :
    (k : Codec) (id : TransferId) (restart pull : Bool) (v : Option TypedVoucher) (c : Cid)
    (s : Node)
    → (c == undef) ≡ false
    → (s == k.null) ≡ false
    → Arrives k id restart pull v c s (new_request k.null id restart pull v c (some s))
new_request-Arrives k id restart pull v c s defined there =
    let r : TransferRequest = filled_request id restart pull (or_empty k.null v) c (some s) in
    rw defined (
      record r {
        selector_ptr = nullable k.null (some s);
        voucher_ptr = nullable k.null (or_empty k.null v).voucher;
      },
      rw (k.from-to-request r c refl defined, from_ipld) refl,
      record {
        id_as_made = refl;
        restart_as_made = ground arith;
        new_as_made = ground arith;
        no_other = ground arith;
        pull_as_made = refl;
        voucher_as_made = node_read-or_empty k.null v;
        type_as_made = type_read-or_empty k.null v;
        base_cid_as_made = refl;
        selector_as_made = rw there refl;
      },
    )
