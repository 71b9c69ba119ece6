-- ===== src/Federation/Envelope.antt =====
-- Envelopes between peers: `validateEnvelope` of roomsd/src/federation/codec.ts.
pub mod Parties
use wardroom.Base.{
  ℕ, String, ◌≡◌, Bool, true, false, ◌&&◌, ◌||◌, not, Option, none, some, List, [], ◌∷◌,
  if◌then◌else◌, ltb, leb, ◌===◌, is_some,
}
use wardroom.Json.{
  Value, null, boolean, whole, other_number, text, array, object, Items, nil, cons, Fields, get,
  keys, contains, exact_keys, every,
}
use wardroom.Federation.{Platform}
use wardroom.Federation.Policy.{
  record_of, is_version, non_blank, text_of, is_text, is_one_of, authority_field, cursor_field,
  optional, timestamp,
}

abbrev pub authority_keys : List String
authority_keys = "origin" ∷ "destination" ∷ "home" ∷ "sourceAuthorityId" ∷ "targetAuthorityId" ∷ []

abbrev pub is_filled : String → Fields → Bool
is_filled k fs = is_some (non_blank (get k fs))

delivery_item_fields : Option Fields → Bool
delivery_item_fields none = false
delivery_item_fields (some fs) =
    exact_keys fs ("cursor" ∷ "kind" ∷ "channelId" ∷ "sessionId" ∷ []) ("body" ∷ [])
    && cursor_field (get "cursor" fs)
    && is_one_of ("message" ∷ "membership" ∷ "lifecycle" ∷ []) (get "kind" fs)
    && is_filled "channelId" fs
    && is_filled "sessionId" fs
    && optional is_text (get "body" fs)

-- `validateDeliveryItem`
unfoldable pub validate_delivery_item : Value → Bool
unfolding delivery_item_fields
validate_delivery_item v = delivery_item_fields (record_of (some v))

unfoldable pub every_item : (Value → Bool) → Items → Bool
every_item p nil = true
every_item p (cons v vs) = p v && every_item p vs

delivery_items : Option Value → Bool
delivery_items (some (array vs)) = every_item validate_delivery_item vs
delivery_items _ = false

revoke_payload : Fields → Bool
revoke_payload fs =
    exact_keys fs ("kind" ∷ "revokedAuthorityId" ∷ "reason" ∷ []) []
    && authority_field (get "revokedAuthorityId" fs)
    && is_filled "reason" fs

forward_payload : Fields → Bool
forward_payload fs =
    exact_keys fs ("kind" ∷ "command" ∷ "channelId" ∷ "sessionId" ∷ []) ("body" ∷ "cursor" ∷ [])
    && is_one_of ("channel.join" ∷ "channel.leave" ∷ "message.send" ∷ "session.lookup" ∷ [])
        (get "command" fs)
    && is_filled "channelId" fs
    && is_filled "sessionId" fs
    && optional is_text (get "body" fs)
    && optional cursor_field (get "cursor" fs)

batch_payload : Fields → Bool
batch_payload fs =
    exact_keys fs
      ("kind" ∷ "channelId" ∷ "recipientSessionId" ∷ "cursorStart" ∷ "cursorEnd" ∷ "items" ∷ []) []
    && is_filled "channelId" fs
    && is_filled "recipientSessionId" fs
    && cursor_field (get "cursorStart" fs)
    && cursor_field (get "cursorEnd" fs)
    && delivery_items (get "items" fs)

ack_payload : Fields → Bool
ack_payload fs =
    exact_keys fs ("kind" ∷ "channelId" ∷ "recipientSessionId" ∷ "cursor" ∷ []) []
    && is_filled "channelId" fs
    && is_filled "recipientSessionId" fs
    && cursor_field (get "cursor" fs)

error_payload : Fields → Bool
error_payload fs =
    exact_keys fs ("kind" ∷ "code" ∷ "message" ∷ []) []
    && is_one_of
        ("unauthorized" ∷ "unknownAuthority" ∷ "invalidRequest" ∷ "expired" ∷ "duplicate"
          ∷ "unavailable" ∷ [])
        (get "code" fs)
    && is_filled "message" fs

abbrev pub has_kind : String → Fields → Bool
has_kind kind fs = is_one_of (kind ∷ []) (get "kind" fs)

payload_fields : Option Fields → Bool
payload_fields none = false
payload_fields (some fs) =
    every (λ k. not (contains authority_keys k)) (keys fs)
    && (if has_kind "enrollmentRevoke" fs
        then revoke_payload fs
        else if has_kind "forwardCommand" fs
        then forward_payload fs
        else if has_kind "deliveryBatch" fs
        then batch_payload fs
        else if has_kind "deliveryAck" fs
        then ack_payload fs
        else has_kind "error" fs && error_payload fs)

-- `validatePayload`
unfoldable pub validate_payload : Option Value → Bool
unfolding payload_fields revoke_payload forward_payload batch_payload delivery_items every_item
    validate_delivery_item ack_payload error_payload
validate_payload v = payload_fields (record_of v)

home_fields : Option Fields → Option String
home_fields none = none
home_fields (some fs) =
    if exact_keys fs ("authorityId" ∷ []) [] then non_blank (get "authorityId" fs) else none

-- `validateHome`, which gives the authority.
unfoldable pub validate_home : Option Value → Option String
unfolding home_fields
validate_home v = home_fields (record_of v)

abbrev pub differ : Option String → Option String → Bool
differ (some s) (some t) = not (s === t)
differ _ _ = false

-- A window that ends after it starts and after now.
abbrev pub is_open_window : ℕ → Option ℕ → Option ℕ → Bool
is_open_window now (some start) (some stop) = ltb start stop && ltb now stop
is_open_window now _ _ = false

module _ (platform : Platform) where
  envelope_fields : ℕ → Option Fields → Bool
  envelope_fields now none = false
  envelope_fields now (some fs) =
      exact_keys fs
        ("version" ∷ "envelopeId" ∷ "requestId" ∷ "deduplicationId" ∷ "createdAt" ∷ "expiresAt"
          ∷ "origin" ∷ "destination" ∷ "payload" ∷ [])
        []
      && is_version (get "version" fs)
      && is_filled "envelopeId" fs
      && is_filled "requestId" fs
      && is_filled "deduplicationId" fs
      && is_open_window now (timestamp platform (get "createdAt" fs))
          (timestamp platform (get "expiresAt" fs))
      && differ (validate_home (get "origin" fs)) (validate_home (get "destination" fs))
      && validate_payload (get "payload" fs)

  -- `validateEnvelope`
  unfoldable pub validate_envelope : ℕ → Option Value → Bool
  unfolding envelope_fields
  validate_envelope now v = envelope_fields now (record_of v)
