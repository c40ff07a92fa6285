-- ===== src/Channels/Fsm/Machine/Cleanup.antt =====
-- cleanupConnection of channels/channels_fsm.go, with the state machine that calls it.
use go_data_transfer.Base.{
  ℕ, ◌≡◌, refl, sym, ◌∙◌, ap, Bool, true, false, List, [], ◌∷◌, Option, none, some, arith, String,
  str_append,
}
use go_data_transfer.Statuses.{
  Status, cancelling, cancelled, failing, failed, completing, completed, requested,
}
use go_data_transfer.Events.{EventCode, cleanup_complete, complete_cleanup_on_restart}
use go_data_transfer.Types.{Peer, ChannelId, other_party}
use go_data_transfer.Channels.Internal.{ChannelState, add_log}
use go_data_transfer.Channels.Fsm.Table.{Target, to, no_change, just_record}
use go_data_transfer.Channels.Fsm.Finality.{
  EnvCall, EntryFunc, cleanup_channel, unprotect, cleanup_connection, channel_state_entry_funcs,
  channel_parameters, is_channel_terminated, is_channel_cleaning_up,
}
use go_data_transfer.Channels.Fsm.Engine.{Engine, nothing, an_error, run_action, land}
use go_data_transfer.Channels.Fsm.Machine.{Input, effect, receive}
use go_data_transfer.Channels.Fsm.Machine.Identity.{
  SameTerms, SameTerms-trans, effect-SameTerms, land-SameTerms,
}
use go_data_transfer.Channels.Fsm.Machine.Status.{
  moves, goes, receive-goes, process_accepted, effect-status, land-status,
}
use go_data_transfer.Channels.Fsm.Machine.Terminal.{final_of}

-- The entry function `f` of a status, run on the state entered, and the event it triggers.
abbrev pub run_entry :
    Engine → Peer → ℕ → Option EntryFunc → ChannelState → ChannelState × List EnvCall
run_entry m self later none ch = (ch, [])
run_entry m self later (some f) ch =
    let (calls, e) = f self ch in
    (receive m ch (record { code = e; args = nothing; now = later }), calls)

abbrev pub after_landing :
    Engine → Peer → ℕ → ChannelState → Option (ChannelState × Bool) → ChannelState × List EnvCall
after_landing m self later ch none = (ch, [])
after_landing m self later ch (some (ch', false)) = (ch', [])
after_landing m self later ch (some (ch', true)) =
    run_entry m self later (channel_parameters.state_entry_funcs ch'.status) ch'

-- One event with all that it sets off: the entry function that it calls and, at time `later`, the
-- event that this triggers.
unfoldable pub settle : Engine → Peer → ℕ → ChannelState → Input → ChannelState × List EnvCall
settle m self later ch i =
    after_landing m self later ch (m.process channel_parameters i.code i.args i.now ch)

abbrev pub calls_entry : Target → Bool
calls_entry just_record = false
calls_entry _ = true

abbrev pub id_of : ChannelState → ChannelId
id_of ch = record { initiator = ch.initiator; responder = ch.responder; id = ch.transfer_id }

entry_of :
    (s : Status)
    → is_channel_cleaning_up s ≡ true
    → channel_state_entry_funcs s ≡ some cleanup_connection
unfolding channel_state_entry_funcs
entry_of cancelling h = refl
entry_of failing h = refl
entry_of completing h = refl
entry_of _ h = cc

cleanup_moves :
    (s : Status)
    → is_channel_cleaning_up s ≡ true
    → (moves cleanup_complete s ≡ some (to (final_of s))) × (is_channel_terminated s ≡ false)
unfolding moves
cleanup_moves requested h = ground arith
cleanup_moves _ h = ground arith

cleanup_effect :
    (now : ℕ) (ch : ChannelState)
    → effect cleanup_complete nothing now ch ≡ some (add_log now "" ch)
unfolding effect run_action
cleanup_effect now ch = refl

-- The entry function of a cleanup status ends in its final status.
pub run_cleanup :
    (m : Engine) (self : Peer) (later : ℕ) (ch : ChannelState)
    → is_channel_cleaning_up ch.status ≡ true
    → let r = run_entry m self later (channel_state_entry_funcs ch.status) ch in
      (r.0.status ≡ final_of ch.status)
      × (r.1 ≡ cleanup_channel (id_of ch) ∷ unprotect (other_party (id_of ch) self) (id_of ch) ∷ [])
unfolding cleanup_connection
run_cleanup m self later ch h =
    let (mv, live) = cleanup_moves ch.status h in
    rw (entry_of ch.status h) (
      receive-goes m ch (record { code = cleanup_complete; args = nothing; now = later })
          (to (final_of ch.status)) (add_log later "" ch) live mv (cleanup_effect later ch),
      ground arith,
    )

land_entry :
    (t : Target) (c : ChannelState) → calls_entry t ≡ true → land t c ≡ ((land t c).0, true)
unfolding land
land_entry t c h = ground arith

settle_landed :
    (m : Engine) (self : Peer) (later : ℕ) (ch : ChannelState) (i : Input) (t : Target)
    (c : ChannelState)
    → is_channel_terminated ch.status ≡ false
    → moves i.code ch.status ≡ some t
    → calls_entry t ≡ true
    → effect i.code i.args i.now ch ≡ some c
    → settle m self later ch i
      ≡ run_entry m self later (channel_state_entry_funcs (land t c).0.status) (land t c).0
unfolding settle
settle_landed m self later ch i t c live mv en ef =
    rw (process_accepted m ch i t c live mv ef, land_entry t c en)

id_of-SameTerms : {a b : ChannelState} → SameTerms a b → id_of a ≡ id_of b
id_of-SameTerms h = ground arith

-- What enters a cleanup status through its entry function goes on to the final status.
settle_cleans :
    (m : Engine) (self : Peer) (later : ℕ) (ch : ChannelState) (i : Input) (t : Target)
    (c : ChannelState)
    → is_channel_terminated ch.status ≡ false
    → moves i.code ch.status ≡ some t
    → calls_entry t ≡ true
    → effect i.code i.args i.now ch ≡ some c
    → is_channel_cleaning_up (goes t ch.status) ≡ true
    → ((settle m self later ch i).0.status ≡ final_of (goes t ch.status))
      × ((settle m self later ch i).1
          ≡ cleanup_channel (id_of ch) ∷ unprotect (other_party (id_of ch) self) (id_of ch) ∷ [])
settle_cleans m self later ch i t c live mv en ef cl =
    let ch' : ChannelState = (land t c).0 in
    let at : ch'.status ≡ goes t ch.status =
      land-status t c ∙ ap (goes t) (effect-status i.code i.args i.now ch c ef) in
    let same : id_of ch' ≡ id_of ch = sym (
      id_of-SameTerms (
        SameTerms-trans ch c ch' (effect-SameTerms i.code i.args i.now ch c ef)
          (land-SameTerms t c))) in
    let (final, calls) = run_cleanup m self later ch' (ap is_channel_cleaning_up at ∙ cl) in
    rw (settle_landed m self later ch i t c live mv en ef) (
      final ∙ ap final_of at,
      calls ∙ ap (λ x. cleanup_channel x ∷ unprotect (other_party x self) x ∷ []) same,
    )

-- The three ways to end a channel.
pub data Ending : Type 0 where
  cancels completes : Ending
  fails : String → Ending

abbrev pub ending_input : Ending → ℕ → Input
ending_input cancels now = record { code = EventCode.cancel; args = nothing; now = now }
ending_input completes now = record { code = EventCode.complete; args = nothing; now = now }
ending_input (fails msg) now = record { code = EventCode.error; args = an_error msg; now = now }

abbrev pub ending_status : Ending → Status
ending_status cancels = cancelled
ending_status completes = completed
ending_status (fails msg) = failed

-- Whatever the status of a live channel, Cancel, Complete and Error bring it to Cancelled, Completed
-- and Failed, when the entry function and the event that this triggers have run. On the way the
-- environment is asked once to clean up the channel and once to unprotect the other party.
pub settle_ends :
    (m : Engine) (self : Peer) (now later : ℕ) (ch : ChannelState) (k : Ending)
    → is_channel_terminated ch.status ≡ false
    → ((settle m self later ch (ending_input k now)).0.status ≡ ending_status k)
      × ((settle m self later ch (ending_input k now)).1
          ≡ cleanup_channel (id_of ch) ∷ unprotect (other_party (id_of ch) self) (id_of ch) ∷ [])
unfolding moves effect run_action
settle_ends m self now later ch cancels live =
    settle_cleans m self later ch (ending_input cancels now) (to cancelling) (add_log now "" ch)
      live refl refl refl refl
settle_ends m self now later ch completes live =
    settle_cleans m self later ch (ending_input completes now) (to completing) (add_log now "" ch)
      live refl refl refl refl
settle_ends m self now later ch (fails msg) live =
    settle_cleans m self later ch (ending_input (fails msg) now) (to failing)
      (add_log now (str_append "data transfer erred: " msg) (record ch { message = msg })) live refl
      refl refl refl

-- A channel that was cleaning up when the process stopped finishes its cleanup by
-- CompleteCleanupOnRestart, in the final status of that cleanup and with the same calls.
pub settle_restart :
    (m : Engine) (self : Peer) (now later : ℕ) (ch : ChannelState)
    → is_channel_cleaning_up ch.status ≡ true
    → let r =
        settle m self later ch
          (record { code = complete_cleanup_on_restart; args = nothing; now = now }) in
      (r.0.status ≡ final_of ch.status)
      × (r.1 ≡ cleanup_channel (id_of ch) ∷ unprotect (other_party (id_of ch) self) (id_of ch) ∷ [])
unfolding moves effect run_action
settle_restart m self now later ch h =
    settle_cleans m self later ch
      (record { code = complete_cleanup_on_restart; args = nothing; now = now }) no_change
      (add_log now "" ch) (cleanup_moves ch.status h).1 refl refl refl h
