-- ===== src/Host.antt =====
-- The frames between the daemon and a runtime host: roomsd/src/runtime/host/codec.ts. A buffer is the
-- list of its bytes.
pub mod Stream
pub mod Messages
mod Tests
use wardroom.Base.{
  ℕ, zero, suc, ◌+◌, ◌*◌, ◌/◌, ◌%◌, ◌^◌, Bool, true, false, ◌||◌, Option, none, some, List, [], ◌∷◌,
  ◌++◌, if◌then◌else◌, ltb, length,
}

abbrev pub Bytes : Type 0
Bytes = List ℕ

abbrev pub host_frame_limit : ℕ
host_frame_limit = 1048576

pub record HostFrame : Type 0 where
  pub type : ℕ
  pub payload : Bytes

-- `writeUInt32BE`
abbrev pub u32_bytes : ℕ → Bytes
u32_bytes n = n / 2 ^ 24 % 256 ∷ n / 2 ^ 16 % 256 ∷ n / 2 ^ 8 % 256 ∷ n % 256 ∷ []

-- `readUInt32BE` of four bytes.
abbrev pub u32_of : ℕ → ℕ → ℕ → ℕ → ℕ
u32_of a b c d = a * 2 ^ 24 + b * 2 ^ 16 + c * 2 ^ 8 + d

-- A type that is no byte, or a payload beyond the limit, throws.
unfoldable pub frame : HostFrame → Option Bytes
frame f =
    if ltb 255 f.type
    then none
    else if ltb host_frame_limit (length f.payload + 1)
    then none
    else some (u32_bytes (length f.payload + 1) ++ f.type ∷ f.payload)

-- The first `n` bytes and the others, if there are so many.
unfoldable pub split : ℕ → Bytes → Option (Bytes × Bytes)
split zero bs = some ([], bs)
split (suc n) [] = none
split (suc n) (b ∷ bs) = elim (split n bs) [ none ↦ none | some (xs, ys) ↦ some (b ∷ xs, ys) ]

-- One round of the loop in `push`: no whole frame yet, a bad length, or a frame and what follows.
pub data Round : Type 0 where
  waits bad : Round
  yields : HostFrame → (rest : Bytes) → Round

abbrev of_split : Option (Bytes × Bytes) → Round
of_split none = waits
of_split (some ([], rest)) = bad
of_split (some (t ∷ payload, rest)) = yields (record { type = t; payload = payload }) rest

unfoldable pub round : Bytes → Round
round (a ∷ b ∷ c ∷ d ∷ rest) =
    let n = u32_of a b c d in
    if ltb n 1 || ltb host_frame_limit n then bad else of_split (split n rest)
round _ = waits

-- The loop, with fuel: a frame takes at least five bytes of the buffer. `none` is a thrown error.
unfoldable pub drain : ℕ → Bytes → Option (List HostFrame × Bytes)
drain zero buffer = some ([], buffer)
drain (suc fuel) buffer = elim (round buffer) [
  | waits ↦ some ([], buffer)
  | bad ↦ none
  | yields f rest ↦ elim (drain fuel rest) [ none ↦ none | some (fs, left) ↦ some (f ∷ fs, left) ]
]

-- `HostFrameDecoder.push`, with the buffer before and after.
unfoldable pub push : Bytes → Bytes → Option (List HostFrame × Bytes)
push buffer chunk = drain (suc (length (buffer ++ chunk))) (buffer ++ chunk)

-- The pushes of a stream of chunks.
unfoldable pub feed : Bytes → List Bytes → Option (List HostFrame × Bytes)
feed buffer [] = some ([], buffer)
feed buffer (chunk ∷ chunks) = elim (push buffer chunk) [
  | none ↦ none
  | some (fs, left) ↦ elim (feed left chunks) [
    | none ↦ none
    | some (gs, last) ↦ some (fs ++ gs, last)
  ]
]

-- `HostFrameDecoder.finish`: whether it returns.
abbrev pub finish : Bytes → Bool
finish [] = true
finish (b ∷ bs) = false

-- The bytes of frames that are written one behind the other.
unfoldable pub encode_all : List HostFrame → Option Bytes
encode_all [] = some []
encode_all (f ∷ fs) = elim (frame f) [
  | none ↦ none
  | some bs ↦ elim (encode_all fs) [ none ↦ none | some rest ↦ some (bs ++ rest) ]
]

abbrev pub concat : List Bytes → Bytes
concat [] = []
concat (c ∷ cs) = c ++ concat cs
