-- ===== src/Manager/Commands/Numbering.antt =====
-- The transfer IDs that impl/timecounter.go gives.
use go_data_transfer.Base.{ℕ, zero, suc, ◌+◌, ◌%◌, ◌^◌, ◌<◌, ◌≡◌, ◌≢◌, refl, ap, sym, ◌∙◌, arith}
use go_data_transfer.Manager.Commands.{next}

-- The counter after a number of calls of `next`.
abbrev pub calls_of_next : ℕ → ℕ → ℕ
calls_of_next zero counter = counter
calls_of_next (suc n) counter = next (calls_of_next n counter)

calls_of_next_lem : (n counter : ℕ) → calls_of_next (suc n) counter ≡ (counter + suc n) % 2 ^ 64
calls_of_next_lem zero counter = refl
calls_of_next_lem (suc n) counter = ap next (calls_of_next_lem n counter) ∙ wrap n
  where
    wrap : (k : ℕ) → next ((counter + suc k) % 2 ^ 64) ≡ (counter + suc (suc k)) % 2 ^ 64
    wrap k = omega arith

-- From any counter, two of the IDs that it gives differ, if there are fewer than 2^64 calls from the
-- first to the second: the counter does not repeat itself before it has wrapped around.
calls_of_next_differ :
    (m n counter : ℕ)
    → m < n
    → n < m + 2 ^ 64
    → calls_of_next (suc m) counter ≢ calls_of_next (suc n) counter
calls_of_next_differ m n counter before near same =
    let e : (counter + suc m) % 2 ^ 64 ≡ (counter + suc n) % 2 ^ 64 =
      sym (calls_of_next_lem m counter) ∙ same ∙ calls_of_next_lem n counter in
    omega arith
