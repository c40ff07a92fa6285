-- ===== src/Channels/Fsm/Machine/Completion.antt =====
-- The initiator's way to completion in channels/channels_fsm.go, against a specification with two
-- independent regions: whether this side has finished the transfer, and how far the responder is.
use go_data_transfer.Base.{
  ℕ, ◌≡◌, refl, ◌≢◌, ◌∙◌, ap, inl, inr, Bool, true, false, List, [], ◌∷◌, some, arith, ◌>>=◌,
  >>=-eq-some,
}
use go_data_transfer.Statuses.{
  Status, ongoing, transfer_finished, responder_completed, completing, responder_finalizing,
  responder_finalizing_transfer_finished,
}
use go_data_transfer.Events.{
  EventCode, open_channel, cancel, error, cleanup_complete, finish_transfer, responder_completes,
  responder_begins_finalization, begin_finalizing, complete,
}
use go_data_transfer.Channels.Internal.{ChannelState, add_log}
use go_data_transfer.Channels.Fsm.Table.{Target}
use go_data_transfer.Channels.Fsm.Finality.{is_channel_terminated}
use go_data_transfer.Channels.Fsm.Engine.{Args, nothing, Engine, run_action}
use go_data_transfer.Channels.Fsm.Machine.{Input, effect, receive, run}
use go_data_transfer.Channels.Fsm.Machine.Status.{moves, goes, receive-status, receive-goes}

pub data Stage : Type 0 where
  running settling done : Stage

-- The specification: two regions that do not know of one another.
pub record Regions : Type 0 where
  pub finished : Bool
  pub responder : Stage

abbrev pub embed_at : Bool → Stage → Status
embed_at false running = ongoing
embed_at true running = transfer_finished
embed_at false settling = responder_finalizing
embed_at true settling = responder_finalizing_transfer_finished
embed_at false done = responder_completed
embed_at true done = completing

abbrev pub embed : Regions → Status
embed p = embed_at p.finished p.responder

abbrev pub advance : EventCode → Regions → Regions
advance finish_transfer p = record p { finished = true }
advance responder_begins_finalization p = record p { responder = settling }
advance responder_completes p = record p { responder = done }
advance _ p = p

-- This side finishes once, the responder completes once and settles before it; the events that are
-- no part of an undisturbed transfer on the initiator's side do not occur.
abbrev pub InOrder : EventCode → Args → Regions → Type 0
InOrder finish_transfer a p = (a ≡ nothing) × (p.finished ≡ false)
InOrder responder_begins_finalization a p = (a ≡ nothing) × (p.responder ≢ done)
InOrder responder_completes a p = (a ≡ nothing) × (p.responder ≢ done)
InOrder open_channel a p = ⊥
InOrder cancel a p = ⊥
InOrder error a p = ⊥
InOrder begin_finalizing a p = ⊥
InOrder complete a p = ⊥
InOrder cleanup_complete a p = ⊥
InOrder _ a p = Unit {0}

abbrev pub AllInOrder : List Input → Regions → Type 0
AllInOrder [] p = Unit {0}
AllInOrder (i ∷ is) p = InOrder i.code i.args p × AllInOrder is (advance i.code p)

abbrev pub advance_all : List Input → Regions → Regions
advance_all [] p = p
advance_all (i ∷ is) p = advance_all is (advance i.code p)

embed_live : (f : Bool) (r : Stage) → is_channel_terminated (embed_at f r) ≡ false
embed_live f r = ground arith

-- An event that moves no region keeps the status, wherever the table has a transition for it.
stays :
    (e : EventCode) (a : Args) (f : Bool) (r : Stage) (t : Target)
    → InOrder e a (record { finished = f; responder = r })
    → advance e (record { finished = f; responder = r }) ≡ record { finished = f; responder = r }
    → moves e (embed_at f r) ≡ some t
    → goes t (embed_at f r) ≡ embed_at f r
unfolding moves
stays open_channel a f r t o n h = absurd o
stays _ a f r t o n h = ground arith

-- The three events of the regions, from each of the six statuses in which they may come.
data Regional : Type 0 where
  finishes settles completes : Regional

abbrev regional_code : Regional → EventCode
regional_code finishes = finish_transfer
regional_code settles = responder_begins_finalization
regional_code completes = responder_completes

regional_moves :
    (k : Regional) (f : Bool) (r : Stage)
    → InOrder (regional_code k) nothing (record { finished = f; responder = r })
    → (moves (regional_code k) (embed_at f r) >>= λ t. some (goes t (embed_at f r)))
      ≡ some (embed (advance (regional_code k) (record { finished = f; responder = r })))
unfolding moves
regional_moves finishes f r o = ground arith
regional_moves _ f r o = ground arith

regional_effect :
    (k : Regional) (now : ℕ) (ch : ChannelState)
    → effect (regional_code k) nothing now ch ≡ some (add_log now "" ch)
unfolding effect run_action
regional_effect finishes now ch = refl
regional_effect _ now ch = refl

regional_step :
    (m : Engine) (ch : ChannelState) (k : Regional) (a : Args) (now : ℕ) (p : Regions)
    → a ≡ nothing
    → ch.status ≡ embed p
    → InOrder (regional_code k) nothing p
    → (receive m ch (record { code = regional_code k; args = a; now = now })).status
      ≡ embed (advance (regional_code k) p)
regional_step m ch k a now p plain at o =
    let e : EventCode = regional_code k in
    let (t, mv, g) =
      >>=-eq-some (moves e (embed p)) (λ t. some (goes t (embed p)))
        (regional_moves k p.finished p.responder o) in
    let landed : goes t (embed p) ≡ embed (advance e p) = cc in
    rw plain (
      receive-goes m ch (record { code = e; args = nothing; now = now }) t (add_log now "" ch)
        (ap is_channel_terminated at ∙ embed_live p.finished p.responder) (ap (moves e) at ∙ mv)
        (regional_effect k now ch)
      ∙ ap (goes t) at
      ∙ landed)

other_step :
    (m : Engine) (ch : ChannelState) (i : Input) (p : Regions)
    → advance i.code p ≡ p
    → ch.status ≡ embed p
    → InOrder i.code i.args p
    → (receive m ch i).status ≡ embed p
other_step m ch i p n at o = elim (receive-status m ch i) [
  | inl same ↦ same ∙ at
  | inr (t, mv, e, alive) ↦
      e ∙ ap (goes t) at ∙ stays i.code i.args p.finished p.responder t o n (rw at at mv)
]

step :
    (m : Engine) (ch : ChannelState) (e : EventCode) (a : Args) (now : ℕ) (p : Regions)
    → ch.status ≡ embed p
    → InOrder e a p
    → (receive m ch (record { code = e; args = a; now = now })).status ≡ embed (advance e p)
step m ch finish_transfer a now p at o = regional_step m ch finishes a now p o.0 at (refl, o.1)
step m ch responder_begins_finalization a now p at o =
    regional_step m ch settles a now p o.0 at (refl, o.1)
step m ch responder_completes a now p at o = regional_step m ch completes a now p o.0 at (refl, o.1)
step m ch e a now p at o = other_step m ch (record { code = e; args = a; now = now }) p refl at o

-- As long as the events come in order, the status of the channel is the one that stands for the two
-- regions of the specification: so it does not matter in which order this side's end of the
-- transfer and the responder's messages come, nor which other events lie between them.
pub run-embed :
    (m : Engine) (ch : ChannelState) (is : List Input) (p : Regions)
    → ch.status ≡ embed p
    → AllInOrder is p
    → (run m ch is).status ≡ embed (advance_all is p)
unfolding run
run-embed m ch [] p at o = at
run-embed m ch (i ∷ is) p at o =
    run-embed m (receive m ch i) is (advance i.code p) (step m ch i.code i.args i.now p at o.0) o.1
