-- ===== src/Timeline/Tidy.antt =====
-- The logs of a timeline, of types.go, as `AddLog` leaves them.
use go_data_transfer.Base.{
  ◌≡◌, refl, arith, ℕ, Bool, true, not, ◌&&◌, List, [], ◌∷◌, ◌++◌, String, str_eq, Bool-cases, inl,
  inr,
}
use go_data_transfer.Types.{
  Log, ChannelStage, ChannelStages, log_stages, touch_stage, is_new_log, new_stage,
}

-- No message is empty, and none is the one before it again.
abbrev pub tidy : List Log → Bool
tidy [] = true
tidy (l ∷ []) = not (str_eq l.log "")
tidy (l ∷ m ∷ r) = not (str_eq l.log "") && not (str_eq l.log m.log) && tidy (m ∷ r)

abbrev pub all_tidy : ChannelStages → Bool
all_tidy [] = true
all_tidy (s ∷ ss) = tidy s.logs && all_tidy ss

tidy-append :
    (logs : List Log) (l : Log)
    → tidy logs ≡ true
    → is_new_log l.log logs ≡ true
    → tidy (logs ++ l ∷ []) ≡ true
unfolding is_new_log
tidy-append [] l t n = ground arith
tidy-append (k ∷ []) l t n = ground arith
tidy-append (k ∷ m ∷ r) l t n = let rest = tidy-append (m ∷ r) l in grind arith

tidy-touch_stage :
    (now : ℕ) (stage msg : String) (s : ChannelStage)
    → tidy s.logs ≡ true
    → tidy (touch_stage now stage msg s).logs ≡ true
unfolding touch_stage
tidy-touch_stage now stage msg s t = elim (Bool-cases (is_new_log msg s.logs)) [
  | inl e ↦ rw e (tidy-append s.logs (record { log = msg; updated_time = now }) t e)
  | inr e ↦ rw e t
]

-- A log keeps the timeline tidy: if no stage had an empty message, or the same message twice in a
-- row, then none has after it.
pub all_tidy-log_stages :
    (now : ℕ) (stage msg : String) (ss : ChannelStages)
    → all_tidy ss ≡ true
    → all_tidy (log_stages now stage msg ss) ≡ true
unfolding log_stages
all_tidy-log_stages now stage msg [] t =
    let new = tidy-touch_stage now stage msg (new_stage now) refl in ground arith
all_tidy-log_stages now stage msg (s ∷ ss) t =
    let touched = tidy-touch_stage now stage msg s in
    let rest = all_tidy-log_stages now stage msg ss in
    elim (Bool-cases (str_eq s.name stage)) [
      | inl e ↦ rw e (grind arith)
      | inr e ↦ rw e (grind arith)
    ]
