-- ===== src/Transport/Messaging.antt =====
-- transport/graphsync/graphsync.go: the hooks that take a message out of a request or a response of
-- graphsync, or put one in, and the listener for a response that is over.
use go_data_transfer.Base.{
  Bool, true, false, not, ◌&&◌, ◌||◌, List, [], ◌∷◌, Option, none, some, String, str_append, ◌==◌,
  if◌then◌else◌,
}
use go_data_transfer.Types.{Peer, ChannelId, channel_id_eq}
use go_data_transfer.Errors.{Err, ok, err, other, is_pause}
use go_data_transfer.Messages.Wire.{Message, a_request, a_response, Codec}
use go_data_transfer.Transport.Extension.{
  ExtensionData, to_extension_data, get_transfer_data, extension_outgoing_block_1_1,
}
use go_data_transfer.Transport.World.{
  RequestId, GsCall, terminate_with_error, pause_response, validate_request, augment_context,
  send_extension_data, update_request_with_extensions, DtChannel, Transport, Graphsync, Act,
  EventsHandler, ◌>>=◌, ◌>>◌, done, stuck, reading, change, tell, tell_all,
}
use go_data_transfer.Transport.Tracking.{held, put_channel, track_dt_channel}
use go_data_transfer.Transport.Channel.{gs_req_opened, gs_data_request_rcvd}
use go_data_transfer.Transport.{cleanup_channel}
use go_data_transfer.Transport.Hooks.{
  GsMessage, Block, incoming_req_extensions, outgoing_blk_extensions, on_wire, channel_of,
  channel_to, on_mapped, terminate_unless_pause,
}

-- The codes of `gsResponseStatusCodes`, and any other.
pub data StatusCode : Type 0 where
  request_acknowledged additional_peers not_enough_gas other_protocol partial_response : StatusCode
  request_paused request_completed_full request_completed_partial request_rejected : StatusCode
  request_failed_busy request_failed_unknown request_failed_legal : StatusCode
  request_failed_content_not_found request_cancelled unlisted : StatusCode

abbrev pub status_code_string : StatusCode → String
status_code_string request_acknowledged = "RequestAcknowledged"
status_code_string additional_peers = "AdditionalPeers"
status_code_string not_enough_gas = "NotEnoughGas"
status_code_string other_protocol = "OtherProtocol"
status_code_string partial_response = "PartialResponse"
status_code_string request_paused = "RequestPaused"
status_code_string request_completed_full = "RequestCompletedFull"
status_code_string request_completed_partial = "RequestCompletedPartial"
status_code_string request_rejected = "RequestRejected"
status_code_string request_failed_busy = "RequestFailedBusy"
status_code_string request_failed_legal = "RequestFailedLegal"
status_code_string request_failed_content_not_found = "RequestFailedContentNotFound"
status_code_string request_cancelled = "RequestCancelled"
status_code_string _ = "RequestFailedUnknown"

-- Asked to, or because a transfer that has not got out of the paused state is restarted.
abbrev pub starts_paused : {W : Type 0} → Bool → DtChannel W → Bool
starts_paused asked_to_pause c = asked_to_pause || (c.is_open && not c.xfer_started)

module _ (k : Codec) {E : Type 0} (p : Graphsync k.Wire)
    (h : EventsHandler (Transport k.Wire E)) where
  -- Put a message, if there is one, into the supported extensions, and hand each to `f`. If that is
  -- not possible, the request is terminated with the error `failure` and the rest is left out.
  abbrev pub attach :
      (ExtensionData k.Wire → GsCall k.Wire)
      → List String
      → Option Message
      → (Err → Option Err)
      → Act (Transport k.Wire E) (Unit {0})
      → Act (Transport k.Wire E) (Unit {0})
  attach f supported none failure rest = rest
  attach f supported (some msg) failure rest = elim (to_extension_data k msg supported) [
    | err e ↦ tell (terminate_with_error (failure e))
    | ok exts ↦ tell_all f exts >> rest
  ]

  -- A message that cannot be read is passed over.
  unfoldable pub gs_outgoing_request_hook :
      Peer → GsMessage k.Wire → Act (Transport k.Wire E) (Unit {0})
  gs_outgoing_request_hook other_peer request = reading λ t.
      elim (get_transfer_data k request.extension t.supported_extensions) [
        | none ↦ stuck
        | some (err e) ↦ done tt
        | some (ok none) ↦ done tt
        | some (ok (some message)) ↦
            let chid = channel_to p.peer_id other_peer message in
            h.on_channel_opened chid >>= λ e. elim e [
              | some x ↦ cleanup_channel p chid
              | none ↦ change (track_dt_channel chid) >> gs_req_opened chid request.id
            ]
      ]

  unfoldable pub gs_outgoing_block_hook : RequestId → Block → Act (Transport k.Wire E) (Unit {0})
  gs_outgoing_block_hook r b =
      if b.size_on_wire == 0
      then done tt
      else (on_mapped r λ chid.
          h.on_data_queued chid b.link b.size b.index (on_wire b) >>= λ (msg, e).
          let send = attach send_extension_data outgoing_blk_extensions msg some (done tt) in
          elim e [
            | none ↦ send
            | some x ↦
                if is_pause (some x)
                then (tell pause_response >> send)
                else tell (terminate_with_error (some x))
          ])

  -- What the handler answers to the message of a request for data.
  abbrev pub hand_over :
      ChannelId → Message → Act (Transport k.Wire E) (Option Message × Option Err)
  hand_over chid (a_request r) = h.on_request_received chid r
  hand_over chid (a_response r) = h.on_response_received chid r >>= λ e. done (none, e)

  -- The end of `gsReqRecdHook`, for an answer without an error other than a pause.
  unfoldable pub admit_request : ChannelId → RequestId → Bool → Act (Transport k.Wire E) (Unit {0})
  admit_request chid r asked_to_pause = reading λ t.
      let c = held t chid in
      let start =
        if starts_paused asked_to_pause c
        then tell pause_response
        else change (put_channel chid (record c { xfer_started = true })) in
      start >> tell (augment_context chid) >> gs_data_request_rcvd chid r >> tell validate_request

  -- The error that terminates the request if the answer cannot be sent is that of the handler.
  unfoldable pub gs_req_recd_hook : Peer → GsMessage k.Wire → Act (Transport k.Wire E) (Unit {0})
  gs_req_recd_hook other_peer request = reading λ t.
      elim (get_transfer_data k request.extension t.supported_extensions) [
        | none ↦ stuck
        | some (err e) ↦ tell (terminate_with_error (some e))
        | some (ok none) ↦ done tt
        | some (ok (some msg)) ↦
            let chid = channel_of p.peer_id other_peer msg in
            change (track_dt_channel chid)
            >> (hand_over chid msg >>= λ (answer, e).
                attach send_extension_data incoming_req_extensions answer (λ x. e)
                  (elim e [
                    | none ↦ admit_request chid request.id false
                    | some x ↦
                        if is_pause (some x)
                        then admit_request chid request.id true
                        else tell (terminate_with_error (some x))
                  ]))
      ]

  unfoldable pub gs_completed_response_listener :
      RequestId → StatusCode → Act (Transport k.Wire E) (Unit {0})
  gs_completed_response_listener r status = on_mapped r λ chid. elim status [
    | request_cancelled ↦ done tt
    | request_completed_full ↦ h.on_channel_completed chid none >> done tt
    | code ↦
        h.on_channel_completed chid (
          some (
            other (
              str_append "graphsync response did not complete: response status code "
                (status_code_string code))))
        >> done tt
  ]

  unfoldable pub process_extension :
      ChannelId
      → (String → Option k.Wire)
      → Peer
      → List String
      → Act (Transport k.Wire E) (Option Message × Option Err)
  process_extension chid extension other_peer exts = elim (get_transfer_data k extension exts) [
    | none ↦ stuck
    | some (err e) ↦ done (none, some e)
    | some (ok none) ↦ done (none, none)
    | some (ok (some msg)) ↦
        if channel_id_eq chid (channel_of p.peer_id other_peer msg)
        then hand_over chid msg
        else done (
          none,
          some (
              other (elim msg [
                | a_request r ↦ "received request on response channel"
                | a_response r ↦ "received response on request channel"
              ])),
        )
  ]

  unfoldable pub gs_request_updated_hook :
      Peer → RequestId → (String → Option k.Wire) → Act (Transport k.Wire E) (Unit {0})
  gs_request_updated_hook other_peer r update = on_mapped r λ chid. reading λ t.
      process_extension chid update other_peer t.supported_extensions >>= λ (answer, e).
      attach send_extension_data t.supported_extensions answer (λ x. e) (terminate_unless_pause e)

  abbrev pub terminate_if : Option Err → Act (Transport k.Wire E) (Unit {0})
  terminate_if none = done tt
  terminate_if (some e) = tell (terminate_with_error (some e))

  unfoldable pub gs_incoming_response_hook :
      Peer → GsMessage k.Wire → Act (Transport k.Wire E) (Unit {0})
  gs_incoming_response_hook other_peer response = on_mapped response.id λ chid. reading λ t.
      process_extension chid response.extension other_peer incoming_req_extensions
      >>= λ (answer, e).
          attach update_request_with_extensions t.supported_extensions answer (λ x. e)
            (terminate_if e
              >> (process_extension chid response.extension other_peer
                    (extension_outgoing_block_1_1 ∷ [])
                  >>= λ (answer2, e2). terminate_if e2))
