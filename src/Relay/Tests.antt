-- ===== src/Relay/Tests.antt =====
-- A channel command that is parsed, and two lines in three chunks.
use wardroom.Base.{
  ℕ, if◌then◌else◌, ltb, map, ap, ◌++◌, ◌≡◌, refl, some, List, [], ◌∷◌, arith, text_discrete,
  byte_length,
}
use wardroom.Json.{
  Value, whole, text, array, nil, cons, Fields, end, field, get, keys, contains, exact_keys,
}
use wardroom.Federation.{Platform}
use wardroom.Federation.Patterns.{
  all_chars, drop_prefix, drop_base64, drop_hex, is_authority_id, is_encoded, is_fingerprint,
  is_uuid,
}
use wardroom.Federation.Patterns as Patterns
use wardroom.Relay.{initiator_to_responder, RelayWireFrame, sequenced, channel_command}
use wardroom.Relay.Fields.{
  str, bounded_str, authority_field, connection_id_field, bounded_base64, shown_as, whole_between,
  whole_from, direction_field,
}
use wardroom.Relay.Bodies.{frame_of, validate_channel_command}
use wardroom.Relay.Parsing.{parse_relay_record}
use wardroom.Relay.Reading.{Units, Bytes, bytes, bytes_from, cut, push, feed}
use wardroom.Relay.Reading.Chunks.{is_whole_from, feed-unlines}

-- A decoder that knows ASCII.
abbrev shown_byte : ℕ → ℕ
shown_byte b = if ltb b 0x80 then b else 0xfffd

unfoldable shown_of : Bytes → Units
shown_of bs = map shown_byte bs

shown_of-append : (xs ys : Bytes) → shown_of (xs ++ ys) ≡ shown_of xs ++ shown_of ys
unfolding shown_of
shown_of-append [] ys = refl
shown_of-append (x ∷ xs) ys = ap (λ (us : Units). shown_byte x ∷ us) (shown_of-append xs ys)

runs : Unit {0}
unfolding text_discrete byte_length get keys contains exact_keys Patterns.length all_chars
    drop_prefix drop_base64 drop_hex is_authority_id is_fingerprint is_encoded is_uuid str
    bounded_str authority_field connection_id_field bounded_base64 shown_as whole_between whole_from
    direction_field frame_of validate_channel_command parse_relay_record bytes_from cut push feed
    is_whole_from shown_of
runs = tt

abbrev platform : Platform
platform = record { date = λ s. some 0; ip_version = λ s. 0 }

abbrev authority : Value
authority = text "authority-0123456789abcdef0123456789abcdef0123456789abcdef0123456789abcdef"

-- The operation is an array, whose text is a word.
abbrev command : Fields
command = field "kind" (text "channelCommand") (
    field "connectionId" (text "11111111-1111-1111-1111-111111111111") (
      field "direction" (text "initiatorToResponder") (
        field "seq" (whole 1) (
          field "requestId" (text "r1") (
            field "homeAuthorityId" authority (
              field "operation" (array (cons (text "send") nil))
                (field "actorSessionId" (text "s1") (field "payload" (text "e30=") end))))))))

abbrev commanded : RelayWireFrame
commanded = sequenced "11111111-1111-1111-1111-111111111111" initiator_to_responder 1 (
    channel_command "r1"
      "authority-0123456789abcdef0123456789abcdef0123456789abcdef0123456789abcdef"
      (array (cons (text "send") nil)) "s1" "e30=")

abbrev lines : List Units
lines = (b'a' ∷ 0xfffd ∷ 0xfffd ∷ b'b' ∷ []) ∷ [] ∷ []

-- The two bytes of a character are in one of the buffers.
abbrev chunks : List Bytes
chunks = (b'a' ∷ []) ∷ [] ∷ (0xc3 ∷ 0xa9 ∷ b'b' ∷ b'\n' ∷ b'\n' ∷ []) ∷ []

feed-unlines_example : feed shown_of [] (map bytes chunks) ≡ some (lines, [])
unfolding runs
feed-unlines_example =
    feed-unlines shown_of lines chunks refl (λ xs ys w. shown_of-append xs ys)
      ((refl, omega arith), ((refl, omega arith), tt)) (refl, (refl, (refl, tt))) refl
