-- ===== src/Statuses.antt =====
-- statuses.go: the statuses of a channel, in the order of the source, and the classes of statuses.
use go_data_transfer.Base.{ℕ, Bool, true, false, not, List, [], ◌∷◌, String, ◌==◌, if◌then◌else◌}

pub data Status : Type 0 where
  requested ongoing transfer_finished responder_completed finalizing completing completed : Status
  failing failed cancelling cancelled initiator_paused responder_paused both_paused : Status
  responder_finalizing responder_finalizing_transfer_finished channel_not_found_error : Status
  queued awaiting_acceptance : Status

-- The value that `iota` gives each constant.
abbrev pub status_code : Status → ℕ
status_code requested = 0
status_code ongoing = 1
status_code transfer_finished = 2
status_code responder_completed = 3
status_code finalizing = 4
status_code completing = 5
status_code completed = 6
status_code failing = 7
status_code failed = 8
status_code cancelling = 9
status_code cancelled = 10
status_code initiator_paused = 11
status_code responder_paused = 12
status_code both_paused = 13
status_code responder_finalizing = 14
status_code responder_finalizing_transfer_finished = 15
status_code channel_not_found_error = 16
status_code queued = 17
status_code awaiting_acceptance = 18

abbrev pub status_eq : Status → Status → Bool
status_eq s t = status_code s == status_code t

-- `statusList.Contains`: the loop returns at the first hit.
abbrev pub contains : List Status → Status → Bool
contains [] s = false
contains (t ∷ ts) s = if status_eq t s then true else contains ts s

abbrev pub not_accepted_states : List Status
not_accepted_states =
    requested ∷ awaiting_acceptance ∷ cancelled ∷ cancelling ∷ failed ∷ failing
    ∷ channel_not_found_error ∷ []

abbrev pub is_accepted : Status → Bool
is_accepted s = not (contains not_accepted_states s)

abbrev pub finalization_statuses : List Status
finalization_statuses = finalizing ∷ completed ∷ completing ∷ []

abbrev pub in_finalization : Status → Bool
in_finalization s = contains finalization_statuses s

abbrev pub transfer_complete_states : List Status
transfer_complete_states =
    transfer_finished ∷ responder_finalizing_transfer_finished ∷ finalizing ∷ completed ∷ completing
    ∷ failing ∷ failed ∷ cancelling ∷ cancelled ∷ channel_not_found_error ∷ []

abbrev pub transfer_complete : Status → Bool
transfer_complete s = contains transfer_complete_states s

abbrev pub transferring_states : List Status
transferring_states =
    ongoing ∷ responder_completed ∷ responder_finalizing ∷ awaiting_acceptance ∷ []

abbrev pub transferring : Status → Bool
transferring s = contains transferring_states s

-- The map `Statuses` of readable names.
abbrev pub statuses : Status → String
statuses requested = "Requested"
statuses ongoing = "Ongoing"
statuses transfer_finished = "TransferFinished"
statuses responder_completed = "ResponderCompleted"
statuses finalizing = "Finalizing"
statuses completing = "Completing"
statuses completed = "Completed"
statuses failing = "Failing"
statuses failed = "Failed"
statuses cancelling = "Cancelling"
statuses cancelled = "Cancelled"
statuses initiator_paused = "InitiatorPaused"
statuses responder_paused = "ResponderPaused"
statuses both_paused = "BothPaused"
statuses responder_finalizing = "ResponderFinalizing"
statuses responder_finalizing_transfer_finished = "ResponderFinalizingTransferFinished"
statuses channel_not_found_error = "ChannelNotFoundError"
statuses queued = "Queued"
statuses awaiting_acceptance = "AwaitingAcceptance"
