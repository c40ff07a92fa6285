-- ===== src/Transport/World.antt =====
-- transport/graphsync/graphsync.go: the state of the transport, what it calls of graphsync, and the
-- handler of its events. Graphsync is a parameter: what it answers is an argument, and what it is
-- asked is recorded, in the same list as what a hook does to the request it is called for.
use go_data_transfer.Base.{ℕ, ℤ, Bool, List, [], ◌∷◌, Option, none, some, String, ◌==◌, ==_iff, Key}
use go_data_transfer.Types.{Peer, Cid, Node, ChannelId, channel_id_eq, channel_id_eq_iff}
use go_data_transfer.Errors.{Err}
use go_data_transfer.Messages.Request.{TransferRequest}
use go_data_transfer.Messages.Response.{TransferResponse}
use go_data_transfer.Messages.Wire.{Message}
use go_data_transfer.Transport.Extension.{ExtensionData}

-- A `graphsync.RequestID` is a token.
abbrev pub RequestId : Type 0
RequestId = ℕ

-- The errors of graphsync, of which the transport knows three by their type.
pub data GsError : Type 0 where
  client_cancelled responder_cancelled request_not_found : GsError
  other_gs_error : String → GsError

-- The hooks and listeners, in the order of `SetEventHandler`.
pub data Hook : Type 0 where
  incoming_request_processing outgoing_request_processing incoming_request : Hook
  completed_response incoming_block outgoing_block block_sent outgoing_request : Hook
  incoming_response request_updated requestor_cancelled network_error : Hook
  receiver_network_error : Hook

-- A call of graphsync, or of the actions that it hands to a hook. The persistence option of a channel
-- has the name of the channel.
pub data GsCall (W : Type 0) : Type 0 where
  gs_request : Peer → Cid → Node → List (ExtensionData W) → GsCall W
  gs_cancel gs_pause : RequestId → GsCall W
  gs_unpause : RequestId → List (ExtensionData W) → GsCall W
  register_persistence_option unregister_persistence_option : ChannelId → GsCall W
  register_hook unregister_hook : Hook → GsCall W
  terminate_with_error : Option Err → GsCall W
  pause_request pause_response validate_request : GsCall W
  augment_context use_persistence_option : ChannelId → GsCall W
  send_extension_data update_request_with_extensions : ExtensionData W → GsCall W

-- `dtChannel`, without its locks and the channel `completed`, which only delays a restart, by one
-- second at most. `opened` is the buffer of one request ID.
pub record DtChannel (W : Type 0) : Type 0 where
  pub channel_id : ChannelId
  pub is_open : Bool
  pub request_id : Option RequestId
  pub requester_cancelled : Bool
  pub xfer_started : Bool
  pub pending_extensions : List (ExtensionData W)
  pub opened : Option RequestId
  pub store_registered : Bool

pub record ChannelInfo : Type 0 where
  pub sending : Bool
  pub channel_id : ChannelId

-- The transport, with the state `E` of the handler of its events, and the calls, latest first.
pub record Transport (W E : Type 0) : Type 0 where
  -- `t.events != nil`
  pub events_set : Bool
  pub supported_extensions : List String
  pub unregister_funcs : List Hook
  pub dt_channels : List (ChannelId × DtChannel W)
  pub request_id_to_channel_id : List (RequestId × ChannelInfo)
  pub gs_calls : List (GsCall W)
  pub handler : E

abbrev pub by_channel : Key ChannelId
by_channel = record { same = channel_id_eq; same_iff = channel_id_eq_iff }

abbrev pub by_request : Key RequestId
by_request = record { same = λ a b. a == b; same_iff = ==_iff }

-- This peer, what graphsync answers to a call, given the calls before it, the error that the handler
-- sees in one of graphsync, and the extension that asks to leave out the first blocks.
pub record Graphsync (W : Type 0) : Type 0 where
  pub peer_id : Peer
  pub answer : List (GsCall W) → GsCall W → Option GsError
  pub failure : GsError → Err
  pub do_not_send_first_blocks : ℤ → ExtensionData W

-- The waits that the end of a context cuts short, and the error that it leaves in each, if it does.
pub data Wait : Type 0 where
  for_completion for_cancel for_opened : Wait

abbrev pub Context : Type 0
Context = Wait → Option Err

-- A computation on a state; `none` is a panic, or a wait that does not end.
abbrev pub Act : Type 0 → Type 0 → Type 0
Act S A = S → Option (S × A)

infixr 5 ◌>>=◌ ◌>>◌
abbrev pub ◌>>=◌ : {S A B : Type 0} → Act S A → (A → Act S B) → Act S B
◌>>=◌ m f s = elim (m s) [ none ↦ none | some (s', a) ↦ f a s' ]

abbrev pub ◌>>◌ : {S A B : Type 0} → Act S A → Act S B → Act S B
m >> k = m >>= λ _. k

abbrev pub done : {S A : Type 0} → A → Act S A
done a s = some (s, a)

abbrev pub stuck : {S A : Type 0} → Act S A
stuck s = none

-- The state as a value, and a change of it.
abbrev pub reading : {S A : Type 0} → (S → Act S A) → Act S A
reading f s = f s s

abbrev pub change : {S : Type 0} → (S → S) → Act S (Unit {0})
change f s = some (f s, tt)

-- `if err != nil { return err }`, then `m`.
abbrev pub go_on : {S : Type 0} → Option Err → Act S (Option Err) → Act S (Option Err)
go_on (some e) m = done (some e)
go_on none m = m

-- `EventsHandler` of transport.go, on the whole state: the handler may call the transport.
pub record EventsHandler (S : Type 0) : Type 0 where
  pub on_channel_opened : ChannelId → Act S (Option Err)
  pub on_response_received : ChannelId → TransferResponse → Act S (Option Err)
  pub on_data_received : ChannelId → Cid → ℕ → ℤ → Bool → Act S (Option Err)
  pub on_data_sent : ChannelId → Cid → ℕ → ℤ → Bool → Act S (Option Err)
  pub on_data_queued : ChannelId → Cid → ℕ → ℤ → Bool → Act S (Option Message × Option Err)
  pub on_transfer_initiated : ChannelId → Act S (Unit {0})
  pub on_request_received : ChannelId → TransferRequest → Act S (Option Message × Option Err)
  pub on_channel_completed : ChannelId → Option Err → Act S (Option Err)
  pub on_request_cancelled : ChannelId → Err → Act S (Option Err)
  pub on_send_data_error : ChannelId → Err → Act S (Option Err)
  pub on_receive_data_error : ChannelId → Err → Act S (Option Err)

module _ {W E : Type 0} where
  abbrev pub tell : GsCall W → Act (Transport W E) (Unit {0})
  tell k = change λ t. record t { gs_calls = k ∷ t.gs_calls }

  abbrev pub call : Graphsync W → GsCall W → Act (Transport W E) (Option GsError)
  call p k t = some (record t { gs_calls = k ∷ t.gs_calls }, p.answer t.gs_calls k)

  -- One call for each element.
  unfoldable pub tell_all :
      (ExtensionData W → GsCall W) → List (ExtensionData W) → Act (Transport W E) (Unit {0})
  tell_all f [] = done tt
  tell_all f (x ∷ xs) = let rest = tell_all f xs in tell (f x) >> rest
