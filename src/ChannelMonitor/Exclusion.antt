-- ===== src/ChannelMonitor/Exclusion.antt =====
-- The goroutines of a monitored channel of channelmonitor/channelmonitor.go do not get in each other's
-- way: which of them restarts the channel, and which closes it.
use go_data_transfer.Base.{
  ℕ, ◌≡◌, refl, arith, Bool, true, false, ◌==◌, ==_iff, ◌⊎◌, inl, inr, Bool-cases, sym, ap, ◌∙◌,
}
use go_data_transfer.ChannelMonitor.{Config}
use go_data_transfer.ChannelMonitor.Channel.{MonitoredChannel, count_restart}
use go_data_transfer.ChannelMonitor.Goroutines.{
  Pc, idle, entering, counting, sending, finishing, failing, closing, stopping, finished, move,
  update,
}

-- In the loop of `restartChannel`.
abbrev pub restarts_now : Pc → Bool
restarts_now counting = true
restarts_now sending = true
restarts_now finishing = true
restarts_now _ = false

-- What a step of one goroutine does to a part `inside` that only one may be in, where `taken` says
-- that one is: it stays where it is, or takes a part that is free, or leaves the part.
abbrev pub Handover : (was now taken taken' : Bool) → Type 0
Handover was now taken taken' =
    ((was ≡ now) × (taken ≡ true → taken' ≡ true))
    ⊎ ((now ≡ true) × (taken ≡ false) × (taken' ≡ true))
    ⊎ ((was ≡ true) × (now ≡ false))

pub move-Handover :
    (cfg : Config) (fails : Bool) (mc : MonitoredChannel) (p : Pc)
    → let r = move cfg fails mc p in
      Handover (restarts_now p) (restarts_now r.1) mc.restarting r.0.restarting
unfolding move
move-Handover cfg fails mc idle = inl (refl, λ h. h)
move-Handover cfg fails mc entering = elim (Bool-cases mc.restarting) [
  | inl h ↦ rw h (inl (refl, λ e. e))
  | inr h ↦ rw h (inr (inl (refl, refl, refl)))
]
move-Handover cfg fails mc counting = elim (Bool-cases (count_restart cfg mc).1) [
  | inl h ↦ rw h (inr (inr (refl, refl)))
  | inr h ↦ rw h (inl (refl, λ e. e))
]
move-Handover cfg true mc sending = inl (refl, λ e. e)
move-Handover cfg false mc sending = inl (refl, λ e. e)
move-Handover cfg fails mc finishing = elim (Bool-cases mc.restart_queued) [
  | inl h ↦ rw h (inl (refl, λ e. refl))
  | inr h ↦ rw h (inr (inr (refl, refl)))
]
move-Handover cfg fails mc failing = elim (Bool-cases mc.shut) [
  | inl h ↦ rw h (inl (refl, λ e. e))
  | inr h ↦ rw h (inl (refl, λ e. e))
]
move-Handover cfg fails mc closing = inl (refl, λ h. h)
move-Handover cfg fails mc stopping = elim (Bool-cases mc.shut) [
  | inl h ↦ rw h (inl (refl, λ e. e))
  | inr h ↦ rw h (inl (refl, λ e. e))
]
move-Handover cfg fails mc finished = inl (refl, λ h. h)

-- After an update, the goroutine at an index is the new one or the one that was there.
pub update_at :
    (pc : ℕ → Pc) (k : ℕ) (p : Pc) (i : ℕ)
    → ((i ≡ k) × (update pc k p i ≡ p)) ⊎ ((i ≡ k → ⊥) × (update pc k p i ≡ pc i))
update_at pc k p i = elim (Bool-cases (i == k)) [
  | inl h ↦ inl ((==_iff i k).0 h, rw h refl)
  | inr h ↦ inr (λ e. ground arith, rw h refl)
]

pub differ : {b : Bool} → b ≡ true → b ≡ false → ⊥
differ h h' = cc

-- One that is inside has taken it, and there is one at most.
abbrev pub Exclusive : (Pc → Bool) → (ℕ → Pc) → Bool → Type 0
Exclusive inside pc taken =
    ((i : ℕ) → inside (pc i) ≡ true → taken ≡ true)
    × ((i j : ℕ) → inside (pc i) ≡ true → inside (pc j) ≡ true → i ≡ j)

pub update-Exclusive :
    (inside : Pc → Bool) (pc : ℕ → Pc) (taken taken' : Bool) (k : ℕ) (p : Pc)
    → Handover (inside (pc k)) (inside p) taken taken'
    → Exclusive inside pc taken
    → Exclusive inside (update pc k p) taken'
update-Exclusive inside pc taken taken' k p (inl (same, keeps)) (one, alone) =
    let before : (i : ℕ) → inside (update pc k p i) ≡ inside (pc i) = λ i.
      elim (update_at pc k p i) [
        | inl (e, at) ↦ ap inside at ∙ sym same ∙ ap (λ j. inside (pc j)) (sym e)
        | inr (_, at) ↦ ap inside at
      ] in
    (
      λ i h. keeps (one i (sym (before i) ∙ h)),
      λ i j h h'. alone i j (sym (before i) ∙ h) (sym (before j) ∙ h'),
    )
update-Exclusive inside pc taken taken' k p (inr (inl (now, free, takes))) (one, alone) =
    let only : (i : ℕ) → inside (update pc k p i) ≡ true → i ≡ k = λ i h.
      elim (update_at pc k p i) [
        | inl (e, at) ↦ e
        | inr (_, at) ↦ absurd (differ (one i (sym (ap inside at) ∙ h)) free)
      ] in
    (λ i h. takes, λ i j h h'. only i h ∙ sym (only j h'))
update-Exclusive inside pc taken taken' k p (inr (inr (was, left))) (one, alone) =
    let nobody : (i : ℕ) → inside (update pc k p i) ≡ true → ⊥ = λ i h. elim (update_at pc k p i) [
      | inl (e, at) ↦ differ (sym (ap inside at) ∙ h) left
      | inr (apart, at) ↦ apart (alone i k (sym (ap inside at) ∙ h) was)
    ] in
    (λ i h. absurd (nobody i h), λ i j h h'. absurd (nobody i h))
