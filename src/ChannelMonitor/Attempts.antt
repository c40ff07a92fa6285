-- ===== src/ChannelMonitor/Attempts.antt =====
-- `doRestartChannel` of channelmonitor/channelmonitor.go comes to an end.
use go_data_transfer.Base.{
  ℕ, zero, suc, ◌+◌, ◌-◌, ◌%◌, ◌^◌, ◌≤◌, ◌<◌, ◌≡◌, refl, arith, Bool, true, false, some, ◌⊎◌, inl,
  inr, ltb, Bool-cases, ◌==◌, ==_iff, ap, ◌∙◌,
}
use go_data_transfer.ChannelMonitor.{Config}
use go_data_transfer.ChannelMonitor.Channel.{MonitoredChannel, do_restart_channel}

-- The restart message of the last attempt was sent, that was in the limit, and every attempt before it
-- failed; or the limit is passed, and then every attempt in it failed.
abbrev pub Attempted : Config → (ℕ → Bool) → MonitoredChannel → MonitoredChannel × Bool → Type 0
Attempted cfg fails mc (mc', too_many) =
    let limit : ℕ = cfg.max_consecutive_restarts in
    ((too_many ≡ false)
      × (mc'.consecutive_restarts ≤ limit)
      × (mc.consecutive_restarts < mc'.consecutive_restarts)
      × (fails mc'.consecutive_restarts ≡ false)
      × ((n : ℕ) → mc.consecutive_restarts < n → n < mc'.consecutive_restarts → fails n ≡ true))
    ⊎ ((too_many ≡ true)
        × (mc'.consecutive_restarts ≡ limit + 1)
        × ((n : ℕ) → mc.consecutive_restarts < n → n ≤ limit → fails n ≡ true))

counted : (n limit : ℕ) → limit < 2 ^ 32 - 1 → n ≤ limit + 1 → ltb limit (n % 2 ^ 32) ≡ ltb limit n
counted n limit small h = let same : n % 2 ^ 32 ≡ n = omega arith in rw same refl

exceeded : (limit : ℕ) → ltb limit (limit + 1) ≡ true
exceeded limit = ground arith

in_limit : (n limit : ℕ) → n ≤ limit → ltb limit n ≡ false
in_limit n limit h = ground arith

-- The attempt of the next number has failed, and so have those behind it.
step :
    (fails : ℕ → Bool) (mc : MonitoredChannel)
    → fails (mc.consecutive_restarts + 1) ≡ true
    → (n : ℕ) → mc.consecutive_restarts < n
    → (mc.consecutive_restarts + 1 < n → fails n ≡ true)
    → fails n ≡ true
step fails mc bad n lo behind = elim (Bool-cases (n == mc.consecutive_restarts + 1)) [
  | inl same ↦
      let e : n ≡ mc.consecutive_restarts + 1 = (==_iff n (mc.consecutive_restarts + 1)).0 same in
      rw e bad
  | inr apart ↦ behind (ground arith)
]

earlier :
    (cfg : Config) (fails : ℕ → Bool) (mc : MonitoredChannel) (r : MonitoredChannel × Bool)
    → fails (mc.consecutive_restarts + 1) ≡ true
    → Attempted cfg fails (record mc { consecutive_restarts = mc.consecutive_restarts + 1 }) r
    → Attempted cfg fails mc r
earlier cfg fails mc r bad (inl (few, hi, lo, good, all)) =
    inl
      (few, hi, omega arith, good, λ n above below. step fails mc bad n above (λ l. all n l below))
earlier cfg fails mc r bad (inr (many, last, all)) =
    inr (many, last, λ n lo hi. step fails mc bad n lo (λ l. all n l hi))

-- From a count of consecutive restarts that is in the limit, and is `left` below it, `left + 1` rounds
-- are enough for the loop to come to an end, with the outcome that the failures of the attempts give:
-- the first that does not fail is the last, every one before it having failed, and if all in the limit
-- fail, the limit is passed. The limit is not the greatest `uint32`.
pub do_restart_channel_within :
    (left : ℕ) (cfg : Config) (fails : ℕ → Bool) (mc : MonitoredChannel)
    → cfg.max_consecutive_restarts < 2 ^ 32 - 1
    → mc.consecutive_restarts + left ≡ cfg.max_consecutive_restarts
    → (r : MonitoredChannel × Bool) × (do_restart_channel (suc left) cfg fails mc ≡ some r)
      × Attempted cfg fails mc r
unfolding do_restart_channel
do_restart_channel_within zero cfg fails mc small e =
    let limit : ℕ = cfg.max_consecutive_restarts in
    let count : ℕ = mc.consecutive_restarts + 1 in
    let last : count ≡ limit + 1 = omega arith in
    let test : ltb limit (count % 2 ^ 32) ≡ true =
      counted count limit small (omega arith) ∙ ap (ltb limit) last ∙ exceeded limit in
    (
      (record mc { consecutive_restarts = count }, true),
      rw test refl,
      inr (refl, last, λ n lo hi. absurd (omega arith)),
    )
do_restart_channel_within (suc left) cfg fails mc small e =
    let limit : ℕ = cfg.max_consecutive_restarts in
    let count : ℕ = mc.consecutive_restarts + 1 in
    let mc' : MonitoredChannel = record mc { consecutive_restarts = count } in
    let within : count ≤ limit = omega arith in
    let test : ltb limit (count % 2 ^ 32) ≡ false =
      counted count limit small (omega arith) ∙ in_limit count limit within in
    elim (Bool-cases (fails count)) [
      | inl bad ↦
          let (r, e', att) = do_restart_channel_within left cfg fails mc' small (omega arith) in
          (r, rw (test, bad) e', earlier cfg fails mc r bad att)
      | inr good ↦ (
        (mc', false),
        rw (test, good) refl,
        inl (refl, within, omega arith, good, λ n lo hi. absurd (omega arith)),
      )
    ]
