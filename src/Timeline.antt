-- ===== src/Timeline.antt =====
-- What the timeline of a channel, of types.go, holds after a log.
pub mod Tidy
use go_data_transfer.Base.{
  ◌≡◌, refl, arith, ℕ, Bool, true, false, not, List, [], ◌∷◌, ◌++◌, Option, none, some, String,
  ◌||◌, str_eq, eq_iff, inl, inr, if◌then◌else◌, last?, Bool-cases, last?-append, sym, ◌∙◌,
}
use go_data_transfer.Types.{
  Log, ChannelStage, ChannelStages, find_stage, get_stage, add_log, log_stages, touch_stage,
  is_new_log, new_stage,
}

-- The stage that a log lands on: the one that is found, or a new one.
abbrev pub stage_or_new : ℕ → Option ChannelStage → ChannelStage
stage_or_new now none = new_stage now
stage_or_new now (some s) = s

str_eq_refl : (s : String) → str_eq s s ≡ true
str_eq_refl s = (eq_iff s s).1 refl

named :
    (s : ChannelStage) (stage other : String)
    → str_eq s.name stage ≡ true
    → str_eq stage other ≡ false
    → str_eq s.name other ≡ false
named s stage other e ne = let same : s.name ≡ stage = (eq_iff s.name stage).0 e in rw same ne

find_stage-log_stages_self :
    (now : ℕ) (stage msg : String) (ss : ChannelStages)
    → find_stage stage (log_stages now stage msg ss)
      ≡ some (touch_stage now stage msg (stage_or_new now (find_stage stage ss)))
unfolding find_stage log_stages
find_stage-log_stages_self now stage msg [] = rw (str_eq_refl stage) refl
find_stage-log_stages_self now stage msg (s ∷ ss) = elim (Bool-cases (str_eq s.name stage)) [
  | inl e ↦ rw e (rw (str_eq_refl stage) refl)
  | inr e ↦ rw e (rw e (find_stage-log_stages_self now stage msg ss))
]

find_stage-log_stages_other :
    (now : ℕ) (stage msg : String) (ss : ChannelStages) (other : String)
    → str_eq stage other ≡ false
    → find_stage other (log_stages now stage msg ss) ≡ find_stage other ss
unfolding find_stage log_stages touch_stage
find_stage-log_stages_other now stage msg [] other ne = rw ne refl
find_stage-log_stages_other now stage msg (s ∷ ss) other ne =
    let rest = find_stage-log_stages_other now stage msg ss other ne in
    elim (Bool-cases (str_eq s.name stage)) [
      | inl e ↦ rw e (rw ne (rw (named s stage other e ne) refl))
      | inr e ↦ rw (e, rest) refl
    ]

-- The message of the last log; none is like an empty one.
abbrev pub last_message : List Log → String
last_message [] = ""
last_message (l ∷ []) = l.log
last_message (l ∷ m ∷ r) = last_message (m ∷ r)

abbrev pub log_entry : ℕ → String → Log
log_entry now msg = record { log = msg; updated_time = now }

-- What becomes of a stage that is logged to: a message that is neither empty nor the last one again is
-- appended to its logs.
pub record Logged (now : ℕ) (stage msg : String) (before after : ChannelStage) : Type 0 where
  pub named_so : after.name ≡ stage
  pub same_description : after.description ≡ before.description
  pub same_creation : after.created_time ≡ before.created_time
  pub touched : after.updated_time ≡ now
  pub entered : after.logs ≡ (
      if str_eq msg "" || str_eq (last_message before.logs) msg
      then before.logs
      else before.logs ++ log_entry now msg ∷ [])

-- What is found under `other` after a log to `stage`.
abbrev pub Looked :
    ℕ → String → String → String → Option ChannelStages → Option ChannelStage → Type 0
Looked now stage msg other none found = found ≡ none
Looked now stage msg other (some there) found =
    if str_eq stage other
    then ((after : ChannelStage) × (found ≡ some after)
        × Logged now stage msg (stage_or_new now (find_stage stage there)) after)
    else found ≡ find_stage other there

last-new :
    (msg : String) (logs : List Log)
    → is_new_log msg logs ≡ not (str_eq msg "" || str_eq (last_message logs) msg)
unfolding is_new_log
last-new msg [] = ground (arith, eq_iff msg "", eq_iff "" msg)
last-new msg (l ∷ []) = ground arith
last-new msg (l ∷ m ∷ r) = last-new msg (m ∷ r)

touch_stage-Logged :
    (now : ℕ) (stage msg : String) (s : ChannelStage)
    → Logged now stage msg s (touch_stage now stage msg s)
unfolding touch_stage
touch_stage-Logged now stage msg s = record {
  named_so = refl;
  same_description = refl;
  same_creation = refl;
  touched = refl;
  entered = rw (last-new msg s.logs) (ground arith);
}

-- Looking a stage up after a log: the stage that was logged to is the one that was there, or a new
-- one, with the name and the time of the log, and the log appended to its logs unless the message is
-- empty or that of the last log again; any other stage is as it was. A timeline that is a nil pointer
-- stays so.
pub get_stage-add_log :
    (now : ℕ) (ss : Option ChannelStages) (stage msg other : String)
    → Looked now stage msg other ss (get_stage (add_log now ss stage msg) other)
unfolding get_stage add_log
get_stage-add_log now none stage msg other = refl
get_stage-add_log now (some ss) stage msg other = elim (Bool-cases (str_eq stage other)) [
  | inl e ↦ rw e (
      let same : stage ≡ other = (eq_iff stage other).0 e in
      let found : ChannelStage = stage_or_new now (find_stage stage ss) in
      (
        touch_stage now stage msg found,
        rw (sym same) (find_stage-log_stages_self now stage msg ss),
        touch_stage-Logged now stage msg found,
      ))
  | inr ne ↦ rw ne (find_stage-log_stages_other now stage msg ss other ne)
]
