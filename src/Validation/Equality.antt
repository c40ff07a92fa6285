-- ===== src/Validation/Equality.antt =====
-- What the equality of validation results of manager.go decides.
use go_data_transfer.Base.{◌≡◌, ◌↔◌, Bool, true, Option, none, some, arith, eq_iff, refl}
use go_data_transfer.Types.{Node, TypedVoucher}
use go_data_transfer.Validation.{ValidationResult, equals, results_equal, same_bool}

same_bool_iff : (a b : Bool) → (same_bool a b ≡ true) ↔ (a ≡ b)
same_bool_iff a b = ground arith

results_equal_iff :
    (deep_equal : Option Node → Option Node → Bool)
    → ((a b : Option Node) → (deep_equal a b ≡ true) ↔ (a ≡ b))
    → (v w : Option TypedVoucher) → (results_equal deep_equal v w ≡ true) ↔ (v ≡ w)
results_equal_iff deep_equal h none none = (λ e. refl, λ e. refl)
results_equal_iff deep_equal h none (some w) = (λ e. cc, λ e. cc)
results_equal_iff deep_equal h (some v) none = (λ e. cc, λ e. cc)
results_equal_iff deep_equal h (some v) (some w) =
    let ty = eq_iff v.type_id w.type_id in let vo = h v.voucher w.voucher in ground arith

-- If the deep equality of nodes decides that they are the same, then the equality of validation
-- results does so too: no field is left out of the comparison, and a nil voucher result equals only
-- a nil one.
pub equals_iff :
    (deep_equal : Option Node → Option Node → Bool)
    → ((a b : Option Node) → (deep_equal a b ≡ true) ↔ (a ≡ b))
    → (vr vr2 : ValidationResult) → (equals deep_equal vr vr2 ≡ true) ↔ (vr ≡ vr2)
equals_iff deep_equal h vr vr2 =
    let a = same_bool_iff vr.accepted vr2.accepted in
    let f = same_bool_iff vr.force_pause vr2.force_pause in
    let q = same_bool_iff vr.requires_finalization vr2.requires_finalization in
    let v = results_equal_iff deep_equal h vr.voucher_result vr2.voucher_result in ground arith
