-- ===== src/Transport/Extension.antt =====
-- transport/graphsync/extension/gsextension.go: messages as extensions of a graphsync request or
-- response. The data of an extension is what go-ipld-prime makes of a message, by the record `Codec`.
pub mod Carried
use go_data_transfer.Base.{
  Bool, ◌||◌, List, [], ◌∷◌, Option, none, some, String, str_eq, if◌then◌else◌,
}
use go_data_transfer.Errors.{Result, ok, err, other}
use go_data_transfer.Network.{protocol_data_transfer_1_2}
use go_data_transfer.Messages.Wire.{Message, Codec, to_ipld, from_ipld}

pub record ExtensionData (W : Type 0) : Type 0 where
  pub name : String
  pub content : W

abbrev pub extension_incoming_request_1_1 : String
extension_incoming_request_1_1 = "fil/data-transfer/incoming-request/1.1"

abbrev pub extension_outgoing_block_1_1 : String
extension_outgoing_block_1_1 = "fil/data-transfer/outgoing-block/1.1"

abbrev pub extension_data_transfer_1_1 : String
extension_data_transfer_1_1 = "fil/data-transfer/1.1"

-- The keys of `ProtocolMap`.
unfoldable pub is_known : String → Bool
is_known name =
    str_eq name extension_incoming_request_1_1
    || str_eq name extension_outgoing_block_1_1
    || str_eq name extension_data_transfer_1_1

unfoldable pub protocol_map : String → Option String
protocol_map name = if is_known name then some protocol_data_transfer_1_2 else none

-- `MessageForProtocol`, which is the same of a request and of a response.
abbrev pub message_for_protocol : Message → String → Result Message
message_for_protocol msg target_protocol =
    if str_eq target_protocol protocol_data_transfer_1_2
    then ok msg
    else err (other "protocol not supported")

module _ (k : Codec) where
  -- The loop of `ToExtensionData`.
  unfoldable pub encode_for : Message → List String → Result (List (ExtensionData k.Wire))
  encode_for msg [] = ok []
  encode_for msg (name ∷ names) =
      let rest = encode_for msg names in
      elim (protocol_map name) [
        | none ↦ err (other "unsupported protocol")
        | some proto_id ↦ elim (message_for_protocol msg proto_id) [
          | err e ↦ rest
          | ok versioned ↦ elim rest [
            | err e ↦ err e
            | ok exts ↦ ok (record { name = name; content = to_ipld k versioned } ∷ exts)
          ]
        ]
      ]

  abbrev pub some_extension : List (ExtensionData k.Wire) → Result (List (ExtensionData k.Wire))
  some_extension [] = err (other "message not encodable in any supported extensions")
  some_extension (e ∷ es) = ok (e ∷ es)

  unfoldable pub to_extension_data : Message → List String → Result (List (ExtensionData k.Wire))
  to_extension_data msg supported = elim (encode_for msg supported) [
    | err e ↦ err e
    | ok exts ↦ some_extension exts
  ]

  unfoldable pub decoders : String → Option (k.Wire → Result Message)
  decoders name =
      if str_eq name extension_incoming_request_1_1
        || str_eq name extension_outgoing_block_1_1
        || str_eq name extension_data_transfer_1_1
      then some (from_ipld k)
      else none

  abbrev pub as_found : Result Message → Result (Option Message)
  as_found (err e) = err e
  as_found (ok msg) = ok (some msg)

  -- `extension` is the method `Extension` of the request or response. No message and no error is
  -- `ok none`; `none` is the panic of a call of a decoder that is not there.
  unfoldable pub get_transfer_data :
      (String → Option k.Wire) → List String → Option (Result (Option Message))
  get_transfer_data extension [] = some (ok none)
  get_transfer_data extension (name ∷ names) =
      let rest = get_transfer_data extension names in
      elim (extension name) [
        | none ↦ rest
        | some node ↦ elim (decoders name) [
          | none ↦ none
          | some decode ↦ some (as_found (decode node))
        ]
      ]
