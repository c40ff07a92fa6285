-- ===== src/Network.antt =====
-- network/libp2p_impl.go: how a stream is opened, a message sent, and what comes in handed on. The
-- host, the streams and the codec are parameters: what they answer is an argument.
pub mod Opening
pub mod Options
use go_data_transfer.Base.{
  ℕ, zero, suc, ◌+◌, Bool, true, false, not, leb, List, [], ◌∷◌, Option, none, some, String, str_eq,
  if◌then◌else◌,
}
use go_data_transfer.Types.{Peer}
use go_data_transfer.Errors.{Err, Result, ok, err, other, wrapped}
use go_data_transfer.Messages.Request.{TransferRequest, is_restart_existing_channel_request}
use go_data_transfer.Messages.Response.{TransferResponse}
use go_data_transfer.Messages.Wire.{Message, a_request, a_response}

-- A stream of the host is known here by its protocol.
pub record Stream : Type 0 where
  pub protocol : String

-- `datatransfer.ProtocolDataTransfer1_2`
abbrev pub protocol_data_transfer_1_2 : String
protocol_data_transfer_1_2 = "/fil/datatransfer/1.2.0"

-- `openStream` from the attempt of a number on. `opens` is what `NewStream` returns in an attempt, and
-- `waits` the error of the context, if it is done before the next. The attempts are a `float64` in the
-- source, which is compared with a whole number: it is rounded up here. `none` is out of fuel.
unfoldable pub open_stream :
    ℕ → ℕ → (ℕ → Result Stream) → (ℕ → Option Err) → ℕ → Option (Result Stream)
open_stream zero max_stream_open_attempts opens waits attempt = none
open_stream (suc fuel) max_stream_open_attempts opens waits attempt =
    let rest = open_stream fuel max_stream_open_attempts opens waits (attempt + 1) in
    elim (opens attempt) [
      | ok s ↦ some (ok s)
      | err e ↦
          if leb max_stream_open_attempts (attempt + 1)
          then some (err (wrapped "exhausted attempts but failed to open stream" e))
          else elim (waits attempt) [ some x ↦ some (err x) | none ↦ rest ]
    ]

-- What the stream and the codec answer.
pub record Sending : Type 0 where
  pub message_for_protocol : Message → String → Result Message
  pub to_net : Message → Option Err
  pub reset : Option Err
  pub close : Option Err

unfoldable pub msg_to_stream : Sending → Stream → Message → Option Err
msg_to_stream w s msg =
    if str_eq s.protocol protocol_data_transfer_1_2
    then w.to_net msg
    else some (other "unrecognized protocol on remote")

-- Behind the opening of the stream.
unfoldable pub send_over_stream : Sending → Stream → Message → Option Err
send_over_stream w s outgoing = elim (w.message_for_protocol outgoing s.protocol) [
  | err e ↦ some (wrapped "failed to convert message for protocol" e)
  | ok msg ↦ elim (msg_to_stream w s msg) [
    | none ↦ w.close
    | some e ↦ elim w.reset [ some e2 ↦ some e2 | none ↦ some e ]
  ]
]

unfoldable pub send_message : Sending → Result Stream → Message → Option Err
send_message w opened outgoing = elim opened [
  | err e ↦ some e
  | ok s ↦ send_over_stream w s outgoing
]

unfoldable pub connect_with_retry : Sending → Result Stream → Option Err
connect_with_retry w opened = elim opened [ err e ↦ some e | ok s ↦ w.close ]

-- What the receiver is told.
pub data Received : Type 0 where
  received_request received_restart_existing_channel_request : Peer → TransferRequest → Received
  received_response : Peer → TransferResponse → Received
  received_error : Err → Received

abbrev pub received : Peer → Message → Received
received p (a_request r) =
    if is_restart_existing_channel_request r
    then received_restart_existing_channel_request p r
    else received_request p r
received p (a_response r) = received_response p r

-- The loop of `handleNewStream` over what `FromNet` reads, with a receiver: what the receiver is told.
-- The stream ends with an error, of which `eof` says whether it is the end of the input.
unfoldable pub handle_messages : (Err → Bool) → Peer → List Message → Err → List Received
handle_messages eof p [] last = if eof last then [] else received_error last ∷ []
handle_messages eof p (m ∷ ms) last = received p m ∷ handle_messages eof p ms last

-- Without a receiver nothing is read. A protocol that is not the one of the codec leaves a nil message
-- without an error, which is a panic.
unfoldable pub handle_new_stream :
    Bool → (Err → Bool) → Stream → Peer → List Message → Err → Option (List Received)
handle_new_stream has_receiver eof s p messages last =
    if not has_receiver
    then some []
    else if str_eq s.protocol protocol_data_transfer_1_2
    then some (handle_messages eof p messages last)
    else none
