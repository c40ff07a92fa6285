-- ===== src/Channels/Fsm/Machine/Progress.antt =====
-- What the events of channels/channels_fsm.go only add to: block totals and lists of vouchers.
use mathlib.Core.List.{append-nil, append_assoc}
use go_data_transfer.Base.{
  ℕ, ◌≡◌, sym, ◌∙◌, ap, Bool, List, [], ◌∷◌, ◌++◌, some, arith, ◌≤ℤ◌, ≤ℤ_refl, ≤ℤ_trans,
}
use go_data_transfer.Events.{EventCode, open_channel, new_voucher, new_voucher_result}
use go_data_transfer.Channels.Internal.{ChannelState, EncodedVoucher, EncodedVoucherResult, add_log}
use go_data_transfer.Channels.Fsm.Table.{Target}
use go_data_transfer.Channels.Fsm.Engine.{Args, a_voucher, Engine, run_action, land}
use go_data_transfer.Channels.Fsm.Machine.{Input, Took, effect, effect-Took, run, run_rel}

abbrev pub Extends {ℓ} : {A : Type ℓ} → List A → List A → Type ℓ
Extends {A} xs ys = (zs : List A) × (ys ≡ xs ++ zs)

pub record Grows (a b : ChannelState) : Type 0 where
  pub received_blocks : a.received_blocks_total ≤ℤ b.received_blocks_total
  pub queued_blocks : a.queued_blocks_total ≤ℤ b.queued_blocks_total
  pub sent_blocks : a.sent_blocks_total ≤ℤ b.sent_blocks_total
  pub vouchers : Extends a.vouchers b.vouchers
  pub voucher_results : Extends a.voucher_results b.voucher_results

Extends-trans {ℓ} : {A : Type ℓ} (xs ys zs : List A) → Extends xs ys → Extends ys zs → Extends xs zs
Extends-trans xs ys zs (us, p) (vs, q) = (us ++ vs, q ∙ ap (λ t. t ++ vs) p ∙ append_assoc xs us vs)

Extends-refl {ℓ} : {A : Type ℓ} (xs : List A) → Extends xs xs
Extends-refl xs = ([], sym (append-nil xs))

Grows-refl : (a : ChannelState) → Grows a a
Grows-refl a = record {
  received_blocks = ≤ℤ_refl a.received_blocks_total;
  queued_blocks = ≤ℤ_refl a.queued_blocks_total;
  sent_blocks = ≤ℤ_refl a.sent_blocks_total;
  vouchers = Extends-refl a.vouchers;
  voucher_results = Extends-refl a.voucher_results;
}

Grows-trans : (a b c : ChannelState) → Grows a b → Grows b c → Grows a c
Grows-trans a b c h k = record {
  received_blocks =
      ≤ℤ_trans a.received_blocks_total b.received_blocks_total c.received_blocks_total
        h.received_blocks k.received_blocks;
  queued_blocks =
      ≤ℤ_trans a.queued_blocks_total b.queued_blocks_total c.queued_blocks_total h.queued_blocks
        k.queued_blocks;
  sent_blocks =
      ≤ℤ_trans a.sent_blocks_total b.sent_blocks_total c.sent_blocks_total h.sent_blocks
        k.sent_blocks;
  vouchers = Extends-trans a.vouchers b.vouchers c.vouchers h.vouchers k.vouchers;
  voucher_results =
      Extends-trans a.voucher_results b.voucher_results c.voucher_results h.voucher_results
        k.voucher_results;
}

-- The vouchers that one event brings.
abbrev voucher_of : EventCode → Args → List EncodedVoucher
voucher_of new_voucher (a_voucher v) = record { type_id = v.type_id; voucher = v.voucher } ∷ []
voucher_of _ _ = []

abbrev voucher_result_of : EventCode → Args → List EncodedVoucherResult
voucher_result_of new_voucher_result (a_voucher v) =
    record { type_id = v.type_id; voucher_result = v.voucher } ∷ []
voucher_result_of _ _ = []

effect-blocks :
    (e : EventCode) (a : Args) (now : ℕ) (ch ch' : ChannelState)
    → effect e a now ch ≡ some ch'
    → (ch.received_blocks_total ≤ℤ ch'.received_blocks_total)
      × (ch.queued_blocks_total ≤ℤ ch'.queued_blocks_total)
      × (ch.sent_blocks_total ≤ℤ ch'.sent_blocks_total)
unfolding effect run_action add_log
effect-blocks open_channel a now ch ch' h = ground arith
effect-blocks _ a now ch ch' h = ground arith

effect-vouchers :
    (e : EventCode) (a : Args) (now : ℕ) (ch ch' : ChannelState)
    → effect e a now ch ≡ some ch'
    → (ch'.vouchers ≡ ch.vouchers ++ voucher_of e a)
      × (ch'.voucher_results ≡ ch.voucher_results ++ voucher_result_of e a)
unfolding effect run_action add_log
effect-vouchers open_channel a now ch ch' h =
    ground (arith, append-nil ch.vouchers, append-nil ch.voucher_results)
effect-vouchers _ a now ch ch' h =
    ground (arith, append-nil ch.vouchers, append-nil ch.voucher_results)

land-Grows : (t : Target) (ch : ChannelState) → Grows ch (land t ch).0
unfolding land
land-Grows (Target.to s) ch = record {
  received_blocks = ≤ℤ_refl ch.received_blocks_total;
  queued_blocks = ≤ℤ_refl ch.queued_blocks_total;
  sent_blocks = ≤ℤ_refl ch.sent_blocks_total;
  vouchers = Extends-refl ch.vouchers;
  voucher_results = Extends-refl ch.voucher_results;
}
land-Grows Target.no_change ch = Grows-refl ch
land-Grows Target.just_record ch = Grows-refl ch

effect-Grows :
    (e : EventCode) (a : Args) (now : ℕ) (ch ch' : ChannelState)
    → effect e a now ch ≡ some ch'
    → Grows ch ch'
effect-Grows e a now ch ch' h =
    let (rb, qb, sb) = effect-blocks e a now ch ch' h in
    let (vs, rs) = effect-vouchers e a now ch ch' h in
    record {
      received_blocks = rb;
      queued_blocks = qb;
      sent_blocks = sb;
      vouchers = (voucher_of e a, vs);
      voucher_results = (voucher_result_of e a, rs);
    }

Took-Grows : (ch : ChannelState) (i : Input) (r : ChannelState × Bool) → Took ch i r → Grows ch r.0
Took-Grows ch i r k = rw k.landed (
    Grows-trans ch k.acted (land k.target k.acted).0
      (effect-Grows i.code i.args i.now ch k.acted (effect-Took k)) (land-Grows k.target k.acted))

-- Over any sequence of events the three block totals never fall, and the lists of vouchers and of
-- voucher results only get longer at their ends.
pub run-Grows : (m : Engine) (ch : ChannelState) (is : List Input) → Grows ch (run m ch is)
run-Grows m = run_rel Grows Grows-refl Grows-trans Took-Grows m
