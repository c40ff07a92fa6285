-- ===== src/Transport/Extension/Carried.antt =====
-- A message that one peer puts into extensions is the message that the other takes out of them.
use go_data_transfer.Base.{
  ◌≡◌, refl, inl, inr, subst, Bool, true, false, ◌||◌, List, [], ◌∷◌, Option, none, some, String,
  str_eq, eq_iff, if◌then◌else◌, All, Bool-cases,
}
use go_data_transfer.Errors.{Result, ok, err}
use go_data_transfer.Messages.Wire.{Message, Codec, to_ipld, from_ipld}
use go_data_transfer.Transport.Extension.{
  ExtensionData, is_known, protocol_map, encode_for, to_extension_data, decoders, get_transfer_data,
}

-- `Extension` of a request that is sent with these extensions.
abbrev pub content_of : {W : Type 0} → List (ExtensionData W) → String → Option W
content_of [] name = none
content_of (e ∷ es) name = if str_eq e.name name then some e.content else content_of es name

abbrev pub is_in : String → List String → Bool
is_in name [] = false
is_in name (n ∷ ns) = str_eq n name || is_in name ns

-- The two peers have an extension in common.
abbrev pub meets : List String → List String → Bool
meets [] supported = false
meets (n ∷ ns) supported = is_in n supported || meets ns supported

abbrev pub Known : String → Type 0
Known name = is_known name ≡ true

-- The extensions are made, and what is read from them under the names is the message, if one of the
-- names is among the extensions, and nothing otherwise.
abbrev pub Carried :
    (k : Codec)
    → Message
    → List String
    → List String
    → Result (List (ExtensionData k.Wire))
    → Type 0
Carried k msg supported names (err e) = ⊥
Carried k msg supported names (ok exts) =
    get_transfer_data k (content_of exts) names
    ≡ some (ok (if meets names supported then some msg else none))

module _ (k : Codec) (msg : Message) where
  -- The extensions of a message under the names.
  abbrev all_of : List String → List (ExtensionData k.Wire)
  all_of [] = []
  all_of (n ∷ ns) = record { name = n; content = to_ipld k msg } ∷ all_of ns

  encode_for-all_of :
      (supported : List String)
      → All Known supported
      → encode_for k msg supported ≡ ok (all_of supported)
  unfolding encode_for protocol_map
  encode_for-all_of [] known = refl
  encode_for-all_of (n ∷ ns) known =
      let rest = encode_for-all_of ns known.1 in rw (encode_for, protocol_map, known.0, rest) refl

  content_of-all_of :
      (supported : List String) (n : String)
      → content_of (all_of supported) n ≡ (if is_in n supported then some (to_ipld k msg) else none)
  content_of-all_of [] n = refl
  content_of-all_of (m ∷ supported) n = elim (Bool-cases (str_eq m n)) [
    | inl hit ↦ rw hit refl
    | inr miss ↦ rw miss (content_of-all_of supported n)
  ]

  is_in-Known :
      (supported : List String) (n : String)
      → All Known supported
      → is_in n supported ≡ true
      → is_known n ≡ true
  is_in-Known [] n known h = cc
  is_in-Known (m ∷ supported) n known h = elim (Bool-cases (str_eq m n)) [
    | inl hit ↦ subst (λ x. is_known x ≡ true) ((eq_iff m n).0 hit) known.0
    | inr miss ↦ is_in-Known supported n known.1 (rw miss at h)
  ]

  decoders-Known : (n : String) → is_known n ≡ true → decoders k n ≡ some (from_ipld k)
  unfolding decoders is_known
  decoders-Known n h = rw h refl

  get_transfer_data-all_of :
      (supported names : List String)
      → All Known supported
      → from_ipld k (to_ipld k msg) ≡ ok msg
      → get_transfer_data k (content_of (all_of supported)) names
        ≡ some (ok (if meets names supported then some msg else none))
  unfolding get_transfer_data
  get_transfer_data-all_of supported [] known back = refl
  get_transfer_data-all_of supported (n ∷ names) known back =
      let rest = get_transfer_data-all_of supported names known back in
      elim (Bool-cases (is_in n supported)) [
        | inl hit ↦
            let is : is_known n ≡ true = is_in-Known supported n known hit in
            rw
              (
                get_transfer_data,
                meets,
                content_of-all_of supported n,
                hit,
                decoders-Known n is,
                back,
              )
              refl
        | inr miss ↦ rw (get_transfer_data, meets, content_of-all_of supported n, miss, rest) refl
      ]

  -- A message that survives its encoding, put into extensions that are all known and of which there
  -- is one, arrives: whoever reads the extensions by any names takes out the message, if one of the
  -- names is among the extensions, and otherwise finds no message and no error.
  pub get_transfer_data-to_extension_data :
      (first : String) (rest names : List String)
      → All Known (first ∷ rest)
      → from_ipld k (to_ipld k msg) ≡ ok msg
      → Carried k msg (first ∷ rest) names (to_extension_data k msg (first ∷ rest))
  unfolding to_extension_data
  get_transfer_data-to_extension_data first rest names known back =
      rw (Carried, encode_for-all_of (first ∷ rest) known)
        (get_transfer_data-all_of (first ∷ rest) names known back)
