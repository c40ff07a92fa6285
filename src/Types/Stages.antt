-- ===== src/Types/Stages.antt =====
-- ChannelStages, ChannelStage and Log of types.go. The slice holds pointers to stages that are
-- appended once and only changed through it, so the model updates the stage in place in the list.
use go_data_transfer.Base.{
  ℕ, Bool, true, not, ◌&&◌, List, [], ◌∷◌, ◌++◌, Option, none, some, String, str_eq, if◌then◌else◌,
  last?,
}

pub record Log : Type 0 where
  pub log : String
  pub updated_time : ℕ

pub record ChannelStage : Type 0 where
  pub name : String
  pub description : String
  pub created_time : ℕ
  pub updated_time : ℕ
  pub logs : List Log

abbrev pub ChannelStages : Type 0
ChannelStages = List ChannelStage

-- The first stage of the name; the receiver may be a nil pointer.
unfoldable pub find_stage : String → ChannelStages → Option ChannelStage
find_stage stage [] = none
find_stage stage (s ∷ ss) = if str_eq s.name stage then some s else find_stage stage ss

unfoldable pub get_stage : Option ChannelStages → String → Option ChannelStage
unfolding find_stage
get_stage none stage = none
get_stage (some ss) stage = find_stage stage ss

-- `msg != "" && (len(st.Logs) == 0 || st.Logs[len(st.Logs)-1].Log != msg)`
unfoldable pub is_new_log : String → List Log → Bool
is_new_log msg logs =
    not (str_eq msg "") && elim (last? logs) [ none ↦ true | some l ↦ not (str_eq l.log msg) ]

-- The statements of `AddLog` behind the lookup, on the stage `st`.
unfoldable pub touch_stage : ℕ → String → String → ChannelStage → ChannelStage
unfolding is_new_log
touch_stage now stage msg st = record st {
  name = stage;
  updated_time = now;
  logs =
      if is_new_log msg st.logs
      then st.logs ++ record { log = msg; updated_time = now } ∷ []
      else st.logs;
}

abbrev pub new_stage : ℕ → ChannelStage
new_stage now = record {
  name = "";
  description = "";
  created_time = now;
  updated_time = 0;
  logs = [];
}

-- `AddLog` on the slice: the first stage of the name is touched, or a new one is appended.
unfoldable pub log_stages : ℕ → String → String → ChannelStages → ChannelStages
unfolding touch_stage
log_stages now stage msg [] = touch_stage now stage msg (new_stage now) ∷ []
log_stages now stage msg (s ∷ ss) =
    if str_eq s.name stage
    then touch_stage now stage msg s ∷ ss
    else s ∷ log_stages now stage msg ss

unfoldable pub add_log : ℕ → Option ChannelStages → String → String → Option ChannelStages
unfolding log_stages
add_log now none stage msg = none
add_log now (some ss) stage msg = some (log_stages now stage msg ss)
