-- ===== src/Channels/Fsm/Machine/Terminal.antt =====
-- The final statuses of channels/channels_fsm.go.
use go_data_transfer.Base.{
  ◌≡◌, refl, ◌↔◌, ◌⊎◌, inl, inr, true, false, List, [], ◌∷◌, some, arith, sym, ap, ◌∙◌, Bool-cases,
}
use go_data_transfer.Statuses.{
  Status, requested, completing, completed, cancelling, cancelled, failing, failed,
}
use go_data_transfer.Events.{EventCode, open_channel, cleanup_complete}
use go_data_transfer.Channels.Internal.{ChannelState, add_log}
use go_data_transfer.Channels.Fsm.Table.{Target, to}
use go_data_transfer.Channels.Fsm.Finality.{is_channel_terminated, is_channel_cleaning_up}
use go_data_transfer.Channels.Fsm.Engine.{Engine, documented, nothing, run_action}
use go_data_transfer.Channels.Fsm.Machine.{Input, effect, receive, run}
use go_data_transfer.Channels.Fsm.Machine.Status.{moves, goes, receive-status, receive-goes}

abbrev pub final_of : Status → Status
final_of cancelling = cancelled
final_of failing = failed
final_of completing = completed
final_of s = s

terminated_by :
    (e : EventCode) (s : Status) (t : Target)
    → moves e s ≡ some t
    → is_channel_terminated s ≡ false
    → is_channel_terminated (goes t s) ≡ true
    → (e ≡ cleanup_complete) × (is_channel_cleaning_up s ≡ true) × (goes t s ≡ final_of s)
unfolding moves
terminated_by open_channel requested t h k l = ground arith
terminated_by _ _ t h k l = ground arith

-- A channel gets into a final status by CleanupComplete alone, from a cleanup status, and the final
-- status is the one that belongs to that cleanup: Cancelled to Cancelling, Failed to Failing,
-- Completed to Completing.
pub receive_terminates :
    (m : Engine) (ch : ChannelState) (i : Input)
    → is_channel_terminated ch.status ≡ false
    → is_channel_terminated (receive m ch i).status ≡ true
    → (i.code ≡ cleanup_complete)
      × (is_channel_cleaning_up ch.status ≡ true)
      × ((receive m ch i).status ≡ final_of ch.status)
receive_terminates m ch i live over = elim (receive-status m ch i) [
  | inl same ↦ absurd (cc)
  | inr (t, mv, e, alive) ↦ rw e (terminated_by i.code ch.status t mv live (rw e at over))
]

receive_final :
    (m : Engine) (ch : ChannelState) (i : Input)
    → is_channel_terminated ch.status ≡ true
    → receive m ch i ≡ ch
unfolding receive documented
receive_final m ch i over = rw (m.process_lem, over)

run_over :
    (m : Engine) (ch : ChannelState) (is : List Input)
    → is_channel_terminated ch.status ≡ true
    → run m ch is ≡ ch
unfolding run
run_over m ch [] over = refl
run_over m ch (i ∷ is) over = rw (receive_final m ch i over) (run_over m ch is over)

abbrev pub Ended : Status → Type 0
Ended s = (s ≡ cancelled) ⊎ ((s ≡ completed) ⊎ (s ≡ failed))

Ended-over : (s : Status) → Ended s → is_channel_terminated s ≡ true
Ended-over s (inl e) = rw e refl
Ended-over s (inr (inl e)) = rw e refl
Ended-over s (inr (inr e)) = rw e refl

over-Ended : (s : Status) → is_channel_terminated s ≡ true → Ended s
over-Ended cancelled h = inl refl
over-Ended completed h = inr (inl refl)
over-Ended failed h = inr (inr refl)
over-Ended requested h = cc
over-Ended _ h = cc

-- A cancel and the end of its cleanup.
abbrev cancel_inputs : List Input
cancel_inputs =
    record { code = EventCode.cancel; args = nothing; now = 0 }
    ∷ record { code = cleanup_complete; args = nothing; now = 0 }
    ∷ []

cancels :
    (m : Engine) (ch : ChannelState)
    → is_channel_terminated ch.status ≡ false
    → (run m ch cancel_inputs).status ≡ cancelled
unfolding run moves effect run_action
cancels m ch live =
    let i : Input = record { code = EventCode.cancel; args = nothing; now = 0 } in
    let j : Input = record { code = cleanup_complete; args = nothing; now = 0 } in
    let at : (receive m ch i).status ≡ cancelling =
      receive-goes m ch i (to cancelling) (add_log 0 "" ch) live refl refl in
    receive-goes m (receive m ch i) j (to cancelled) (add_log 0 "" (receive m ch i)) (rw at refl)
      (rw at refl) refl

-- The statuses in which no sequence of events changes anything of a channel are just Cancelled,
-- Completed and Failed.
pub run_final :
    (m : Engine) (ch : ChannelState) → ((is : List Input) → run m ch is ≡ ch) ↔ Ended ch.status
run_final m ch = (
  λ stays. elim (Bool-cases (is_channel_terminated ch.status)) [
    | inl over ↦ over-Ended ch.status over
    | inr live ↦
        inl (ap (λ (c : ChannelState). c.status) (sym (stays cancel_inputs)) ∙ cancels m ch live)
  ],
  λ ended is. run_over m ch is (Ended-over ch.status ended),
)
