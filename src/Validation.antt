-- ===== src/Validation.antt =====
-- manager.go: the result of validating a voucher.
pub mod Equality
use go_data_transfer.Base.{
  ℕ, Bool, true, false, not, ◌&&◌, ◌||◌, ◌==◌, leb, Option, none, some, if◌then◌else◌,
}
use go_data_transfer.Statuses.{in_finalization}
use go_data_transfer.Types.{Node, TypedVoucher, typed_voucher_equals}
use go_data_transfer.Channels.Internal.{ChannelState}
use go_data_transfer.Channels.State.{is_pull}

pub record ValidationResult : Type 0 where
  pub accepted : Bool
  pub voucher_result : Option TypedVoucher
  pub force_pause : Bool
  pub data_limit : ℕ
  pub requires_finalization : Bool

-- Go's `==` on two Booleans.
abbrev pub same_bool : Bool → Bool → Bool
same_bool true b = b
same_bool false b = not b

-- The last two conjuncts of `Equals`, on the two pointers.
abbrev pub results_equal :
    (Option Node → Option Node → Bool) → Option TypedVoucher → Option TypedVoucher → Bool
results_equal deep_equal none none = true
results_equal deep_equal (some v) (some v2) = typed_voucher_equals deep_equal v v2
results_equal deep_equal _ _ = false

-- `ipld.DeepEqual` is the parameter.
abbrev pub equals : (Option Node → Option Node → Bool) → ValidationResult → ValidationResult → Bool
equals deep_equal vr vr2 =
    same_bool vr.accepted vr2.accepted
    && same_bool vr.force_pause vr2.force_pause
    && vr.data_limit == vr2.data_limit
    && same_bool vr.requires_finalization vr2.requires_finalization
    && results_equal deep_equal vr.voucher_result vr2.voucher_result

abbrev pub leave_request_paused : ValidationResult → ChannelState → Bool
leave_request_paused vr chst =
    if vr.force_pause
    then true
    else if vr.requires_finalization && in_finalization chst.status
    then true
    else let limit_factor : ℕ = if is_pull chst then chst.queued else chst.received in
      not (vr.data_limit == 0) && leb vr.data_limit limit_factor
