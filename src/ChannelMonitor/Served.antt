-- ===== src/ChannelMonitor/Served.antt =====
-- A restart of channelmonitor/channelmonitor.go that is in progress or queued is not forgotten.
use go_data_transfer.Base.{
  ℕ, ℤ, ◌≡◌, refl, Bool, true, false, List, [], ◌∷◌, ◌⊎◌, inl, inr, sym, ap, ◌∙◌, Bool-cases,
  ==_refl, ◌||◌, if◌then◌else◌, subst, arith,
}
use go_data_transfer.ChannelMonitor.{Config}
use go_data_transfer.ChannelMonitor.Channel.{MonitoredChannel}
use go_data_transfer.ChannelMonitor.Goroutines.{
  Pc, idle, entering, counting, sending, finishing, failing, closing, stopping, finished, move,
  System, Action, run, restarts, accept_times_out, complete_times_out, after_timeout, is_zero,
  stops, data_moves, update, started, act, init, run_all,
}
use go_data_transfer.ChannelMonitor.Exclusion.{update_at, differ}
use go_data_transfer.ChannelMonitor.Serving.{
  serves, Serves, serving, aside, move-Serves, move-queued,
}

-- Whether a restart is owed: one came while another was in progress, and no goroutine has ended its
-- round of the loop since.
abbrev pub owed_step : System → Action → Bool → Bool
owed_step s (run i fails) owed = elim (s.pc i) [
  | entering ↦ s.mc.restarting || owed
  | finishing ↦ false
  | _ ↦ owed
]
owed_step s _ owed = owed

unfoldable pub owed_after : Config → System → List Action → Bool → Bool
owed_after cfg s [] owed = owed
owed_after cfg s (a ∷ rest) owed = owed_after cfg (act cfg s a) rest (owed_step s a owed)

pub record Served (cfg : Config) (owed : Bool) (s : System) : Type 0 where
  pub owed_in_progress : owed ≡ true → s.mc.restarting ≡ true
  pub in_progress_served :
      s.mc.restarting ≡ true → ((i : ℕ) × (serves (s.pc i) ≡ true)) ⊎ (s.mc.shut ≡ true)
  pub goes_round :
      (i : ℕ) (fails : Bool)
      → s.pc i ≡ finishing
      → (act cfg s (run i fails)).pc i ≡ (if owed then counting else finished)

-- The invariant behind it.
record Kept (owed : Bool) (s : System) : Type 0 where
  queued_owed : s.mc.restart_queued ≡ owed
  queued_in_progress : s.mc.restart_queued ≡ true → s.mc.restarting ≡ true
  in_progress_served :
      s.mc.restarting ≡ true → ((i : ℕ) × (serves (s.pc i) ≡ true)) ⊎ (s.mc.shut ≡ true)

replace :
    (s : System) (mc : MonitoredChannel) (k : ℕ) (p : Pc) (owed owed' : Bool)
    → Serves s.mc (s.pc k) mc p
    → mc.restart_queued ≡ owed'
    → Kept owed s
    → Kept owed' (record { mc = mc; pc = update s.pc k p })
replace s mc k p owed owed' h q o = record {
  queued_owed = q;
  queued_in_progress = h.queue o.queued_in_progress;
  in_progress_served = λ x. elim (h.serve x) [
    | inl now ↦ inl (k, rw (==_refl k) now)
    | inr (inl over) ↦ inr over
    | inr (inr (aloof, was)) ↦ elim (o.in_progress_served was) [
      | inl (i, busy) ↦ elim (update_at s.pc k p i) [
        | inl (e, _) ↦ absurd (differ (ap (λ j. serves (s.pc j)) (sym e) ∙ busy) aloof)
        | inr (_, at) ↦ inl (i, ap serves at ∙ busy)
      ]
      | inr over ↦ inr (h.stays_shut over)
    ]
  ];
}

start :
    (s : System) (k : ℕ) (p : Pc) (owed : Bool)
    → Kept owed s
    → Kept owed (record s { pc = update s.pc k (started p (s.pc k)) })
start s k p owed o =
    replace s s.mc k (started p (s.pc k)) owed owed (starts (s.pc k)) o.queued_owed o
  where
    starts : (q : Pc) → Serves s.mc q s.mc (started p q)
    starts idle = aside s.mc s.mc idle p refl refl refl (λ h. h)
    starts entering = aside s.mc s.mc entering entering refl refl refl (λ h. h)
    starts counting = serving s.mc s.mc counting counting refl refl refl refl
    starts sending = serving s.mc s.mc sending sending refl refl refl refl
    starts finishing = serving s.mc s.mc finishing finishing refl refl refl refl
    starts failing = serving s.mc s.mc failing failing refl refl refl refl
    starts closing = aside s.mc s.mc closing closing refl refl refl (λ h. h)
    starts stopping = aside s.mc s.mc stopping stopping refl refl refl (λ h. h)
    starts finished = aside s.mc s.mc finished finished refl refl refl (λ h. h)

after_timeout-Kept :
    (timeout : ℤ) (s : System) (i : ℕ) (owed : Bool)
    → Kept owed s
    → Kept owed (after_timeout timeout s i)
after_timeout-Kept timeout s i owed o = elim (Bool-cases (is_zero timeout)) [
  | inl off ↦ rw off o
  | inr on ↦ rw on (start s i failing owed o)
]

act-Kept :
    (cfg : Config) (s : System) (a : Action) (owed : Bool)
    → Kept owed s
    → Kept (owed_step s a owed) (act cfg s a)
unfolding act
act-Kept cfg s (run i fails) owed o =
    let r : MonitoredChannel × Pc = move cfg fails s.mc (s.pc i) in
    replace s r.0 i r.1 owed (owed_step s (run i fails) owed) (move-Serves cfg fails s.mc (s.pc i))
      (subst (λ q. r.0.restart_queued ≡ owed_step s (run i fails) q) o.queued_owed
        (move-queued cfg fails s.mc (s.pc i)))
      o
act-Kept cfg s (restarts i) owed o = start s i entering owed o
act-Kept cfg s (accept_times_out i) owed o = after_timeout-Kept cfg.accept_timeout s i owed o
act-Kept cfg s (complete_times_out i) owed o = after_timeout-Kept cfg.complete_timeout s i owed o
act-Kept cfg s (stops i) owed o = start s i stopping owed o
act-Kept cfg s data_moves owed o = record {
  queued_owed = o.queued_owed;
  queued_in_progress = o.queued_in_progress;
  in_progress_served = o.in_progress_served;
}

run_all-Kept :
    (cfg : Config) (actions : List Action) (s : System) (owed : Bool)
    → Kept owed s
    → Kept (owed_after cfg s actions owed) (run_all cfg s actions)
unfolding run_all owed_after
run_all-Kept cfg [] s owed o = o
run_all-Kept cfg (a ∷ rest) s owed o =
    run_all-Kept cfg rest (act cfg s a) (owed_step s a owed) (act-Kept cfg s a owed o)

round :
    (cfg : Config) (fails : Bool) (mc : MonitoredChannel)
    → (move cfg fails mc finishing).1 ≡ (if mc.restart_queued then counting else finished)
unfolding move
round cfg fails mc = ground arith

Kept-Served : (cfg : Config) (owed : Bool) (s : System) → Kept owed s → Served cfg owed s
unfolding act
Kept-Served cfg owed s o = record {
  owed_in_progress = λ h. o.queued_in_progress (o.queued_owed ∙ h);
  in_progress_served = o.in_progress_served;
  goes_round = λ i fails at.
      rw (==_refl i, at)
        (round cfg fails s.mc ∙ ap (λ q. if q then counting else finished) o.queued_owed);
}

-- Whatever the goroutines of a new monitored channel do, in any order and number: a restart that came
-- while another was in progress is owed until a goroutine ends its round of the loop. While one is
-- owed, one is in progress; while one is in progress, some goroutine is in the loop that restarts the
-- channel, or about to shut the monitor down, or the monitor is shut down; and a goroutine that ends
-- its round goes round again if one is owed, and returns otherwise.
pub run_all-Served :
    (cfg : Config) (actions : List Action)
    → Served cfg (owed_after cfg init actions false) (run_all cfg init actions)
run_all-Served cfg actions =
    Kept-Served cfg (owed_after cfg init actions false) (run_all cfg init actions) (
      run_all-Kept cfg actions init false
        (record { queued_owed = refl; queued_in_progress = λ h. cc; in_progress_served = λ h. cc }))
