-- ===== src/Errors.antt =====
-- errors.go, and the errors that the packages of the repository make.
use go_data_transfer.Base.{◌≡◌, refl, ◌⊎◌, inl, inr, Bool, true, false, Option, some, String}
use go_data_transfer.Types.{ChannelId}

pub data Err : Type 0 where
  -- the constants of errors.go
  handler_already_set handler_not_set channel_not_found pause resume rejected unsupported : Err
  -- `statemachine.ErrTerminated`, of go-statemachine
  terminated : Err
  -- `channels.ErrNotFound`
  not_found : ChannelId → Err
  -- `errors.New`, and the errors of other packages, with their text
  other : String → Err
  -- `Errorf` with `%w`
  wrapped : String → Err → Err

-- `errors.Is(err, statemachine.ErrTerminated)`
abbrev pub is_terminated : Err → Bool
is_terminated terminated = true
is_terminated (wrapped msg e) = is_terminated e
is_terminated _ = false

-- A result with an error, and the chaining of such.
pub data Result {ℓ} (A : Type ℓ) : Type ℓ where
  ok : A → Result A
  err : Err → Result A

pub Result-cases {ℓ} :
    {A : Type ℓ} (r : Result A) → ((e : Err) × (r ≡ err e)) ⊎ ((a : A) × (r ≡ ok a))
Result-cases (ok a) = inr (a, refl)
Result-cases (err e) = inl (e, refl)

abbrev pub is_pause : Option Err → Bool
is_pause (some pause) = true
is_pause _ = false
