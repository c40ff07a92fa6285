-- ===== src/Network/Opening.antt =====
-- `openStream` of network/libp2p_impl.go comes to an end.
use go_data_transfer.Base.{
  ℕ, zero, suc, ◌+◌, ◌≤◌, ◌<◌, ◌≡◌, refl, arith, true, false, leb, ◌==◌, ==_iff, Option, none, some,
  ◌⊎◌, inl, inr, Option-cases, Bool-cases,
}
use go_data_transfer.Errors.{Err, Result, ok, err, wrapped, Result-cases}
use go_data_transfer.Network.{Stream, open_stream}

module _ (limit : ℕ) (opens : ℕ → Result Stream) (waits : ℕ → Option Err) where
  -- The attempt of this number is the last: it opens a stream; or it fails, and is the last that is
  -- allowed, or the context ends before the next.
  abbrev pub LastAttempt : ℕ → Result Stream → Type 0
  LastAttempt n r =
      ((s : Stream) × (opens n ≡ ok s) × (r ≡ ok s))
      ⊎ ((e : Err) × (opens n ≡ err e)
          × (((n + 1 ≡ limit)
                × (r ≡ err (wrapped "exhausted attempts but failed to open stream" e)))
              ⊎ ((x : Err) × (waits n ≡ some x) × (r ≡ err x))))

  -- The attempts from one on, of which the last gives the outcome, and those before it have failed.
  abbrev pub Attempts : ℕ → Result Stream → Type 0
  Attempts attempt r =
      (n : ℕ) × (attempt ≤ n)
      × (n < limit)
      × ((k : ℕ) → attempt ≤ k → k < n → ((e : Err) × (opens k ≡ err e)) × (waits k ≡ none))
      × LastAttempt n r

  here :
      (attempt : ℕ) (r : Result Stream)
      → attempt < limit
      → LastAttempt attempt r
      → Attempts attempt r
  here attempt r h last = (attempt, omega arith, h, (λ k lo hi. absurd (omega arith)), last)

  later :
      (attempt : ℕ) (r : Result Stream) (e : Err)
      → opens attempt ≡ err e
      → waits attempt ≡ none
      → Attempts (attempt + 1) r
      → Attempts attempt r
  later attempt r e fails goes_on (n, lo, hi, before, last) = (
    n,
    omega arith,
    hi,
    (λ k lo' hi'. elim (Bool-cases (k == attempt)) [
      | inl same ↦ let eq : k ≡ attempt = (==_iff k attempt).0 same in rw eq ((e, fails), goes_on)
      | inr apart ↦ before k (ground arith) hi'
    ]),
    last,
  )

  -- If `left` attempts are allowed after the one that is next, then `left + 1` rounds are enough for
  -- the loop to come to an end. The outcome is that of the last attempt, which is within the limit,
  -- and every attempt before it has failed.
  pub open_stream-Attempts :
      (left attempt : ℕ)
      → attempt + left + 1 ≡ limit
      → (r : Result Stream) × (open_stream (suc left) limit opens waits attempt ≡ some r)
        × Attempts attempt r
  unfolding open_stream
  open_stream-Attempts zero attempt e = elim (Result-cases (opens attempt)) [
    | inr (s, h) ↦
        (ok s, rw (open_stream, h) refl, here attempt (ok s) (omega arith) (inl (s, h, refl)))
    | inl (x, h) ↦
        let over : leb limit (attempt + 1) ≡ true = ground arith in
        let r : Result Stream = err (wrapped "exhausted attempts but failed to open stream" x) in
        (
          r,
          rw (open_stream, h, over) refl,
          here attempt r (omega arith) (inr (x, h, inl (omega arith, refl))),
        )
  ]
  open_stream-Attempts (suc left) attempt e = elim (Result-cases (opens attempt)) [
    | inr (s, h) ↦
        (ok s, rw (open_stream, h) refl, here attempt (ok s) (omega arith) (inl (s, h, refl)))
    | inl (x, h) ↦
        let over : leb limit (attempt + 1) ≡ false = ground arith in
        elim (Option-cases (waits attempt)) [
          | inr (y, w) ↦ (
            err y,
            rw (open_stream, h, over, w) refl,
            here attempt (err y) (omega arith) (inr (x, h, inr (y, w, refl))),
          )
          | inl w ↦
              let (r, run, att) = open_stream-Attempts left (attempt + 1) (omega arith) in
              (r, rw (open_stream, h, over, w) run, later attempt r x h w att)
        ]
  ]
