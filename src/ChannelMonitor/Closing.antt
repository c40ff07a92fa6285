-- ===== src/ChannelMonitor/Closing.antt =====
-- What the goroutines of a monitored channel of channelmonitor/channelmonitor.go do to close it.
use go_data_transfer.Base.{◌+◌, ◌≡◌, refl, Bool, true, false, ◌⊎◌, inl, inr, Bool-cases, sym, ◌∙◌}
use go_data_transfer.ChannelMonitor.{Config}
use go_data_transfer.ChannelMonitor.Channel.{MonitoredChannel, count_restart}
use go_data_transfer.ChannelMonitor.Goroutines.{
  Pc, idle, entering, counting, sending, finishing, failing, closing, stopping, finished, move,
}
use go_data_transfer.ChannelMonitor.Exclusion.{Handover, differ}

-- About to ask the manager to close the channel.
abbrev pub closes_now : Pc → Bool
closes_now closing = true
closes_now _ = false

-- What a step does to the number of closes.
abbrev pub Counts : MonitoredChannel → Pc → MonitoredChannel → Pc → Type 0
Counts mc p mc' p' =
    ((mc'.closes ≡ mc.closes)
      × (closes_now p' ≡ true → (mc.shut ≡ false) ⊎ (closes_now p ≡ true))
      × (mc'.shut ≡ false → mc.shut ≡ false))
    ⊎ ((closes_now p ≡ true)
        × (closes_now p' ≡ false)
        × (mc'.closes ≡ mc.closes + 1)
        × (mc'.shut ≡ mc.shut))

-- A step that is not about closing.
aside :
    (mc mc' : MonitoredChannel) (p p' : Pc)
    → closes_now p ≡ false
    → closes_now p' ≡ false
    → mc'.closes ≡ mc.closes
    → (mc.shut ≡ true → mc'.shut ≡ true)
    → Handover (closes_now p) (closes_now p') mc.shut mc'.shut × Counts mc p mc' p'
aside mc mc' p p' h h' e keeps = (
  inl (h ∙ sym h', keeps),
  inl (
    e,
    (λ c. absurd (differ c h')),
    elim (Bool-cases mc.shut) [ inl on ↦ λ e. absurd (differ (keeps on) e) | inr off ↦ λ e. off ],
  ),
)

pub move-Counts :
    (cfg : Config) (fails : Bool) (mc : MonitoredChannel) (p : Pc)
    → let r = move cfg fails mc p in
      Handover (closes_now p) (closes_now r.1) mc.shut r.0.shut × Counts mc p r.0 r.1
unfolding move
move-Counts cfg fails mc idle = aside mc mc idle idle refl refl refl (λ h. h)
move-Counts cfg fails mc entering = elim (Bool-cases mc.restarting) [
  | inl h ↦
      rw h
        (aside mc (record mc { restart_queued = true }) entering finished refl refl refl (λ h. h))
  | inr h ↦
      rw h (aside mc (record mc { restarting = true }) entering counting refl refl refl (λ h. h))
]
move-Counts cfg fails mc counting =
    let mc' : MonitoredChannel = (count_restart cfg mc).0 in
    elim (Bool-cases (count_restart cfg mc).1) [
      | inl h ↦ rw h (aside mc mc' counting failing refl refl refl (λ h. h))
      | inr h ↦ rw h (aside mc mc' counting sending refl refl refl (λ h. h))
    ]
move-Counts cfg true mc sending = aside mc mc sending counting refl refl refl (λ h. h)
move-Counts cfg false mc sending = aside mc mc sending finishing refl refl refl (λ h. h)
move-Counts cfg fails mc finishing = elim (Bool-cases mc.restart_queued) [
  | inl h ↦ rw h (
      aside mc (record mc { restarting = true; restart_queued = false }) finishing counting refl
        refl refl (λ h. h))
  | inr h ↦
      rw h (aside mc (record mc { restarting = false }) finishing finished refl refl refl (λ h. h))
]
move-Counts cfg fails mc failing = elim (Bool-cases mc.shut) [
  | inl h ↦ rw h (inl (refl, λ e. e), inl (refl, (λ c. absurd (differ c refl)), λ e. e))
  | inr h ↦ rw h (inr (inl (refl, refl, refl)), inl (refl, (λ c. inl refl), λ e. refl))
]
move-Counts cfg fails mc closing = (inr (inr (refl, refl)), inr (refl, refl, refl, refl))
move-Counts cfg fails mc stopping = elim (Bool-cases mc.shut) [
  | inl h ↦ rw h (inl (refl, λ e. e), inl (refl, (λ c. absurd (differ c refl)), λ e. e))
  | inr h ↦ rw h (inl (refl, λ e. refl), inl (refl, (λ c. absurd (differ c refl)), λ e. refl))
]
move-Counts cfg fails mc finished = aside mc mc finished finished refl refl refl (λ h. h)
