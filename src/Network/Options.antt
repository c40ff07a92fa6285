-- ===== src/Network/Options.antt =====
-- network/libp2p_impl.go: what a network is set up with, and the protocol of a peer. A duration is a
-- number of nanoseconds; the two `float64` are taken to be whole numbers, as the defaults are.
use go_data_transfer.Base.{ℕ, ◌*◌, Bool, true, false, List, [], ◌∷◌, String, str_eq, if◌then◌else◌}
use go_data_transfer.Errors.{Result, ok, err}
use go_data_transfer.Network.{Stream, protocol_data_transfer_1_2}

abbrev second : ℕ
second = 1000000000

-- The fields of `libp2pDataTransferNetwork`, without the host; `has_receiver` is `receiver != nil`.
pub record DataTransferNetwork : Type 0 where
  pub has_receiver : Bool
  pub open_stream_timeout : ℕ
  pub send_message_timeout : ℕ
  pub max_stream_open_attempts : ℕ
  pub min_attempt_duration : ℕ
  pub max_attempt_duration : ℕ
  pub backoff_factor : ℕ
  pub dt_protocols : List String

pub data NetworkOption : Type 0 where
  data_transfer_protocols : List String → NetworkOption
  send_message_parameters : ℕ → ℕ → NetworkOption
  retry_parameters : ℕ → ℕ → ℕ → ℕ → NetworkOption

abbrev pub default_network : DataTransferNetwork
default_network = record {
  has_receiver = false;
  open_stream_timeout = 10 * second;
  send_message_timeout = 10 * second;
  max_stream_open_attempts = 5;
  min_attempt_duration = second;
  max_attempt_duration = 300 * second;
  backoff_factor = 5;
  dt_protocols = protocol_data_transfer_1_2 ∷ [];
}

abbrev pub apply_option : NetworkOption → DataTransferNetwork → DataTransferNetwork
apply_option (data_transfer_protocols protocols) n = record n { dt_protocols = protocols }
apply_option (send_message_parameters open_timeout send_timeout) n = record n {
  send_message_timeout = send_timeout;
  open_stream_timeout = open_timeout;
}
apply_option (retry_parameters min_duration max_duration attempts factor) n = record n {
  max_stream_open_attempts = attempts;
  min_attempt_duration = min_duration;
  max_attempt_duration = max_duration;
  backoff_factor = factor;
}

abbrev pub apply_options : List NetworkOption → DataTransferNetwork → DataTransferNetwork
apply_options [] n = n
apply_options (o ∷ os) n = apply_options os (apply_option o n)

unfoldable pub new_from_libp2p_host : List NetworkOption → DataTransferNetwork
new_from_libp2p_host options = apply_options options default_network

-- Paired with the protocols for which the host is given `handleNewStream`.
abbrev pub set_delegate : DataTransferNetwork → DataTransferNetwork × List String
set_delegate n = (record n { has_receiver = true }, n.dt_protocols)

-- `known` is what the peer store answers, and `opened` what `openStream` returns, which is called if
-- the peer store does not know the protocol; the stream is closed at once, whatever that returns.
unfoldable pub protocol_of : Result String → Result Stream → Result String
protocol_of known opened = elim known [
  | err e ↦ err e
  | ok first ↦
      if str_eq first "" then (elim opened [ err e ↦ err e | ok s ↦ ok s.protocol ]) else ok first
]
