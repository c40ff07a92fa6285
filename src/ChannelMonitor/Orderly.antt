-- ===== src/ChannelMonitor/Orderly.antt =====
-- What holds of a monitored channel of channelmonitor/channelmonitor.go, however its goroutines are
-- interleaved.
use go_data_transfer.Base.{
  ℕ, ℤ, Bool-cases, ◌≤◌, ◌≡◌, refl, arith, Bool, true, false, List, [], ◌∷◌, inl, inr, sym, ap, ◌∙◌,
}
use go_data_transfer.ChannelMonitor.{Config}
use go_data_transfer.ChannelMonitor.Channel.{MonitoredChannel}
use go_data_transfer.ChannelMonitor.Goroutines.{
  Pc, idle, entering, counting, sending, finishing, failing, closing, stopping, finished, move,
  System, Action, run, restarts, accept_times_out, complete_times_out, after_timeout, is_zero,
  stops, data_moves, update, started, act, init, run_all,
}
use go_data_transfer.ChannelMonitor.Exclusion.{
  restarts_now, Handover, Exclusive, move-Handover, update-Exclusive, update_at, differ,
}
use go_data_transfer.ChannelMonitor.Closing.{closes_now, Counts, move-Counts}

pub record Orderly (s : System) : Type 0 where
  pub one_restarts : Exclusive restarts_now s.pc s.mc.restarting
  pub one_closes : Exclusive closes_now s.pc s.mc.shut
  pub open_before : s.mc.shut ≡ false → s.mc.closes ≡ 0
  pub none_before : (i : ℕ) → closes_now (s.pc i) ≡ true → s.mc.closes ≡ 0
  pub at_most_once : s.mc.closes ≤ 1

-- A goroutine is replaced.
replace :
    (s : System) (mc : MonitoredChannel) (k : ℕ) (p : Pc)
    → Handover (restarts_now (s.pc k)) (restarts_now p) s.mc.restarting mc.restarting
    → Handover (closes_now (s.pc k)) (closes_now p) s.mc.shut mc.shut
    → Counts s.mc (s.pc k) mc p
    → Orderly s
    → Orderly (record { mc = mc; pc = update s.pc k p })
replace s mc k p h h' (inl (same, takes, opens)) o = record {
  one_restarts =
      update-Exclusive restarts_now s.pc s.mc.restarting mc.restarting k p h o.one_restarts;
  one_closes = update-Exclusive closes_now s.pc s.mc.shut mc.shut k p h' o.one_closes;
  open_before = λ e. same ∙ o.open_before (opens e);
  none_before = λ i c. same ∙ elim (update_at s.pc k p i) [
    | inl (e, at) ↦ elim (takes (sym (ap closes_now at) ∙ c)) [
      | inl free ↦ o.open_before free
      | inr was ↦ o.none_before k was
    ]
    | inr (_, at) ↦ o.none_before i (sym (ap closes_now at) ∙ c)
  ];
  at_most_once = rw same o.at_most_once;
}
replace s mc k p h h' (inr (was, now, more, same)) o =
    let first : s.mc.closes ≡ 0 = o.none_before k was in
    let over : mc.shut ≡ true = same ∙ o.one_closes.0 k was in
    let closes = update-Exclusive closes_now s.pc s.mc.shut mc.shut k p h' o.one_closes in
    record {
      one_restarts =
          update-Exclusive restarts_now s.pc s.mc.restarting mc.restarting k p h o.one_restarts;
      one_closes = closes;
      open_before = λ e. absurd (differ over e);
      none_before = λ i c. elim (update_at s.pc k p i) [
        | inl (e, at) ↦ absurd (differ (sym (ap closes_now at) ∙ c) now)
        | inr (apart, at) ↦ absurd (apart (o.one_closes.1 i k (sym (ap closes_now at) ∙ c) was))
      ];
      at_most_once = omega arith;
    }

started_same :
    (inside : Pc → Bool) (p q : Pc)
    → inside p ≡ false
    → inside idle ≡ false
    → inside (started p q) ≡ inside q
started_same inside p idle h h' = h ∙ sym h'
started_same inside p entering h h' = refl
started_same inside p counting h h' = refl
started_same inside p sending h h' = refl
started_same inside p finishing h h' = refl
started_same inside p failing h h' = refl
started_same inside p closing h h' = refl
started_same inside p stopping h h' = refl
started_same inside p finished h h' = refl

start :
    (s : System) (k : ℕ) (p : Pc)
    → restarts_now p ≡ false
    → closes_now p ≡ false
    → Orderly s
    → Orderly (record s { pc = update s.pc k (started p (s.pc k)) })
start s k p h h' o =
    let same = started_same closes_now p (s.pc k) h' refl in
    replace s s.mc k (started p (s.pc k))
      (inl (sym (started_same restarts_now p (s.pc k) h refl), λ e. e)) (inl (sym same, λ e. e))
      (inl (refl, (λ c. inr (sym same ∙ c)), λ e. e)) o

after_timeout-Orderly :
    (timeout : ℤ) (s : System) (i : ℕ) → Orderly s → Orderly (after_timeout timeout s i)
after_timeout-Orderly timeout s i o = elim (Bool-cases (is_zero timeout)) [
  | inl off ↦ rw off o
  | inr on ↦ rw on (start s i failing refl refl o)
]

act-Orderly : (cfg : Config) (s : System) (a : Action) → Orderly s → Orderly (act cfg s a)
unfolding act
act-Orderly cfg s (run i fails) o =
    let (h, counts) = move-Counts cfg fails s.mc (s.pc i) in
    replace s (move cfg fails s.mc (s.pc i)).0 i (move cfg fails s.mc (s.pc i)).1
      (move-Handover cfg fails s.mc (s.pc i)) h counts o
act-Orderly cfg s (restarts i) o = start s i entering refl refl o
act-Orderly cfg s (accept_times_out i) o = after_timeout-Orderly cfg.accept_timeout s i o
act-Orderly cfg s (complete_times_out i) o = after_timeout-Orderly cfg.complete_timeout s i o
act-Orderly cfg s (stops i) o = start s i stopping refl refl o
act-Orderly cfg s data_moves o = record {
  one_restarts = o.one_restarts;
  one_closes = o.one_closes;
  open_before = o.open_before;
  none_before = o.none_before;
  at_most_once = o.at_most_once;
}

run_all_from-Orderly :
    (cfg : Config) (actions : List Action) (s : System)
    → Orderly s
    → Orderly (run_all cfg s actions)
unfolding run_all
run_all_from-Orderly cfg [] s o = o
run_all_from-Orderly cfg (a ∷ rest) s o =
    run_all_from-Orderly cfg rest (act cfg s a) (act-Orderly cfg s a o)

init-Orderly : Orderly init
init-Orderly = record {
  one_restarts = ((λ i h. cc), λ i j h h'. cc);
  one_closes = ((λ i h. cc), λ i j h h'. cc);
  open_before = λ h. refl;
  none_before = λ i h. refl;
  at_most_once = omega arith;
}

-- Whatever the goroutines of a new monitored channel do, in any order and number: at most one of them
-- is in the loop that restarts the channel, and then a restart is in progress; at most one is about to
-- close the channel, and then the monitor is shut down; the manager is asked to close the channel once
-- at most, and not before the monitor is shut down.
pub run_all-Orderly : (cfg : Config) (actions : List Action) → Orderly (run_all cfg init actions)
run_all-Orderly cfg actions = run_all_from-Orderly cfg actions init init-Orderly
