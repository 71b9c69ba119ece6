-- ===== src/Relay/Reading.antt =====
-- The lines of a relay connection: `RelayFrameReader` of roomsd/src/federation/relay-protocol.ts. A
-- text is the list of its UTF-16 units, and a buffer the list of its bytes.
mod Cutting
pub mod Chunks
use wardroom.Base.{
  ℕ, zero, suc, ◌+◌, Bool, true, false, ◌&&◌, Option, none, some, List, [], ◌∷◌, ◌++◌,
  if◌then◌else◌, ltb, leb, ◌==◌,
}

abbrev pub Units : Type 0
Units = List ℕ

abbrev pub relay_max_frame_bytes : ℕ
relay_max_frame_bytes = 16384

abbrev pub is_high : ℕ → Bool
is_high c = leb 0xd800 c && leb c 0xdbff

abbrev is_low : ℕ → Bool
is_low c = leb 0xdc00 c && leb c 0xdfff

-- The bytes of a unit in UTF-8; the second half of a pair adds one to the three of the first.
abbrev unit_bytes : (after_high : Bool) → ℕ → ℕ
unit_bytes after_high c =
    if ltb c 0x80 then 1 else if ltb c 0x800 then 2 else if is_low c && after_high then 1 else 3

unfoldable pub bytes_from : (after_high : Bool) → Units → ℕ
bytes_from after_high [] = 0
bytes_from after_high (c ∷ cs) = unit_bytes after_high c + bytes_from (is_high c) cs

-- `Buffer.byteLength(text, "utf8")`
abbrev pub utf8_length : Units → ℕ
utf8_length = bytes_from false

abbrev onto : ℕ → List Units × Units → List Units × Units
onto c ([], rest) = ([], c ∷ rest)
onto c (line ∷ lines, rest) = ((c ∷ line) ∷ lines, rest)

-- The lines of a text that end, and what follows the last newline.
unfoldable pub cut : Units → List Units × Units
cut [] = ([], [])
cut (c ∷ cs) = let after = cut cs in if c == b'\n' then ([] ∷ after.0, after.1) else onto c after

abbrev bounded : List Units × Units → Option (List Units × Units)
bounded (lines, rest) =
    if ltb relay_max_frame_bytes (utf8_length rest) then none else some (lines, rest)

-- `push` of a text, with the buffer before and after; `none` is a thrown error.
unfoldable pub push_text : Units → Units → Option (List Units × Units)
push_text buffer chunk = bounded (cut (buffer ++ chunk))

abbrev pub Bytes : Type 0
Bytes = List ℕ

-- `Buffer | string`
pub data Chunk : Type 0 where
  bytes : Bytes → Chunk
  text : Units → Chunk

module _ (text_of : Bytes → Units) where
  -- A chunk of bytes is decoded by itself: `chunk.toString("utf8")`, the parameter.
  abbrev pub chunk_text : Chunk → Units
  chunk_text (bytes bs) = text_of bs
  chunk_text (text cs) = cs

  unfoldable pub push : Units → Chunk → Option (List Units × Units)
  unfolding push_text
  push buffer chunk = push_text buffer (chunk_text chunk)

  -- The lines of a stream of chunks.
  unfoldable pub feed : Units → List Chunk → Option (List Units × Units)
  unfolding push
  feed buffer [] = some ([], buffer)
  feed buffer (chunk ∷ chunks) = elim (push buffer chunk) [
    | none ↦ none
    | some (lines, rest) ↦ elim (feed rest chunks) [
      | none ↦ none
      | some (more, last) ↦ some (lines ++ more, last)
    ]
  ]

abbrev pub concat : List Units → Units
concat [] = []
concat (c ∷ cs) = c ++ concat cs
