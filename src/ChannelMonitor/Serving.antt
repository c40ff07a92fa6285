-- ===== src/ChannelMonitor/Serving.antt =====
-- What a step of a goroutine of channelmonitor/channelmonitor.go does to a restart that is in progress or
-- queued.
use go_data_transfer.Base.{
  ◌≡◌, refl, Bool, true, false, ◌⊎◌, inl, inr, sym, ◌∙◌, Bool-cases, ◌||◌, arith,
}
use go_data_transfer.ChannelMonitor.{Config}
use go_data_transfer.ChannelMonitor.Channel.{MonitoredChannel, count_restart}
use go_data_transfer.ChannelMonitor.Goroutines.{
  Pc, idle, entering, counting, sending, finishing, failing, closing, stopping, finished, move,
}
use go_data_transfer.ChannelMonitor.Exclusion.{differ}

-- In the loop of `restartChannel`, or about to shut the monitor down.
abbrev pub serves : Pc → Bool
serves counting = true
serves sending = true
serves finishing = true
serves failing = true
serves _ = false

-- What a step of a goroutine must keep.
pub record Serves (mc : MonitoredChannel) (p : Pc) (mc' : MonitoredChannel) (p' : Pc) : Type 0 where
  pub queue :
      (mc.restart_queued ≡ true → mc.restarting ≡ true)
      → mc'.restart_queued ≡ true
      → mc'.restarting ≡ true
  pub serve :
      mc'.restarting ≡ true
      → (serves p' ≡ true) ⊎ ((mc'.shut ≡ true) ⊎ ((serves p ≡ false) × (mc.restarting ≡ true)))
  pub stays_shut : mc.shut ≡ true → mc'.shut ≡ true

-- A step to a place that serves, or from one that does not.
pub serving :
    (mc mc' : MonitoredChannel) (p p' : Pc)
    → serves p' ≡ true
    → mc'.restarting ≡ mc.restarting
    → mc'.restart_queued ≡ mc.restart_queued
    → mc'.shut ≡ mc.shut
    → Serves mc p mc' p'
serving mc mc' p p' h r q e = record {
  queue = λ k x. r ∙ k (sym q ∙ x);
  serve = λ x. inl h;
  stays_shut = λ x. e ∙ x;
}

pub aside :
    (mc mc' : MonitoredChannel) (p p' : Pc)
    → serves p ≡ false
    → mc'.restarting ≡ mc.restarting
    → mc'.restart_queued ≡ mc.restart_queued
    → (mc.shut ≡ true → mc'.shut ≡ true)
    → Serves mc p mc' p'
aside mc mc' p p' h r q keeps = record {
  queue = λ k x. r ∙ k (sym q ∙ x);
  serve = λ x. inr (inr (h, sym r ∙ x));
  stays_shut = keeps;
}

pub move-Serves :
    (cfg : Config) (fails : Bool) (mc : MonitoredChannel) (p : Pc)
    → Serves mc p (move cfg fails mc p).0 (move cfg fails mc p).1
unfolding move
move-Serves cfg fails mc idle = aside mc mc idle idle refl refl refl (λ h. h)
move-Serves cfg fails mc entering = elim (Bool-cases mc.restarting) [
  | inl h ↦
      rw h
        (record { queue = λ k x. refl; serve = λ x. inr (inr (refl, refl)); stays_shut = λ x. x })
  | inr h ↦ rw h (record { queue = λ k x. refl; serve = λ x. inl refl; stays_shut = λ x. x })
]
move-Serves cfg fails mc counting =
    let mc' : MonitoredChannel = (count_restart cfg mc).0 in
    elim (Bool-cases (count_restart cfg mc).1) [
      | inl h ↦ rw h (serving mc mc' counting failing refl refl refl refl)
      | inr h ↦ rw h (serving mc mc' counting sending refl refl refl refl)
    ]
move-Serves cfg true mc sending = serving mc mc sending counting refl refl refl refl
move-Serves cfg false mc sending = serving mc mc sending finishing refl refl refl refl
move-Serves cfg fails mc finishing = elim (Bool-cases mc.restart_queued) [
  | inl h ↦ rw h (record { queue = λ k x. refl; serve = λ x. inl refl; stays_shut = λ x. x })
  | inr h ↦ rw h (record {
    queue = λ k x. absurd (differ x refl);
    serve = λ x. absurd (differ x refl);
    stays_shut = λ x. x;
  })
]
move-Serves cfg fails mc failing = elim (Bool-cases mc.shut) [
  | inl h ↦ rw h (record { queue = λ k. k; serve = λ x. inr (inl refl); stays_shut = λ x. x })
  | inr h ↦ rw h (record { queue = λ k. k; serve = λ x. inr (inl refl); stays_shut = λ x. refl })
]
move-Serves cfg fails mc closing =
    aside mc (move cfg fails mc closing).0 closing finished refl refl refl (λ h. h)
move-Serves cfg fails mc stopping = elim (Bool-cases mc.shut) [
  | inl h ↦ rw h (record { queue = λ k. k; serve = λ x. inr (inl refl); stays_shut = λ x. x })
  | inr h ↦ rw h (record { queue = λ k. k; serve = λ x. inr (inl refl); stays_shut = λ x. refl })
]
move-Serves cfg fails mc finished = aside mc mc finished finished refl refl refl (λ h. h)

-- The flag of the queue is what is owed.
pub move-queued :
    (cfg : Config) (fails : Bool) (mc : MonitoredChannel) (p : Pc)
    → (move cfg fails mc p).0.restart_queued ≡ (elim p [
      | entering ↦ mc.restarting || mc.restart_queued
      | finishing ↦ false
      | _ ↦ mc.restart_queued
    ])
unfolding move
move-queued cfg fails mc entering = ground arith
move-queued cfg fails mc finishing = ground arith
move-queued cfg fails mc _ = ground arith
