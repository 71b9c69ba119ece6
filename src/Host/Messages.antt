-- ===== src/Host/Messages.antt =====
-- The payloads that a runtime host sends: the decoders of roomsd/src/runtime/host/codec.ts. The texts
-- of UTF-8 bytes are a parameter, since the conversion is node:buffer's.
use wardroom.Base.{
  ℕ, ◌+◌, ◌-◌, ◌*◌, ◌/◌, ◌%◌, ◌^◌, ◌≤◌, ◌<◌, ◌≡◌, refl, String, Bool, Option, none, some, [], ◌∷◌,
  ◌++◌, if◌then◌else◌, ltb, ◌==◌, arith,
}
use wardroom.Host.{Bytes, u32_bytes, u32_of}

pub record HostReady : Type 0 where
  pub generation : ℕ
  pub host_pid : ℕ
  pub child_pid : ℕ

pub record HostHelloAck : Type 0 where
  pub version : ℕ
  pub generation : ℕ
  pub replay_from : ℕ
  pub head : ℕ
  pub gap : Bool

pub record HostOutput : Type 0 where
  pub cursor : ℕ
  pub bytes : Bytes

-- A signed integer: `negative n` is -n.
pub data Signed : Type 0 where
  natural : ℕ → Signed
  negative : ℕ → Signed

pub record HostError : Type 0 where
  pub code : ℕ
  pub message : String

abbrev pub u16_of : ℕ → ℕ → ℕ
u16_of a b = a * 2 ^ 8 + b

-- `readBigUInt64BE`, of its upper and lower half.
abbrev pub u64_of : ℕ → ℕ → ℕ
u64_of high low = high * 2 ^ 32 + low

-- `readInt32BE`
abbrev pub i32_of : ℕ → Signed
i32_of n = if ltb n (2 ^ 31) then natural n else negative (2 ^ 32 - n)

unfoldable pub decode_ready : Bytes → Option HostReady
decode_ready (a ∷ b ∷ c ∷ d ∷ e ∷ f ∷ g ∷ h ∷ i ∷ j ∷ k ∷ l ∷ []) =
    some (record {
      generation = u32_of a b c d;
      host_pid = u32_of e f g h;
      child_pid = u32_of i j k l;
    })
decode_ready _ = none

unfoldable pub decode_hello_ack : Bytes → Option HostHelloAck
decode_hello_ack
      (a ∷ b ∷ c ∷ d ∷ e ∷ f ∷ g ∷ h ∷ i ∷ j ∷ k ∷ l ∷ m ∷ n ∷ o ∷ p ∷ q ∷ r ∷ s ∷ t ∷ u ∷ v ∷ w
        ∷ []) =
    some (record {
      version = u16_of a b;
      generation = u32_of c d e f;
      replay_from = u64_of (u32_of g h i j) (u32_of k l m n);
      head = u64_of (u32_of o p q r) (u32_of s t u v);
      gap = w == 1;
    })
decode_hello_ack _ = none

unfoldable pub decode_output : Bytes → Option HostOutput
decode_output (a ∷ b ∷ c ∷ d ∷ e ∷ f ∷ g ∷ h ∷ bytes) =
    some (record { cursor = u64_of (u32_of a b c d) (u32_of e f g h); bytes = bytes })
decode_output _ = none

unfoldable pub decode_exit : Bytes → Option Signed
decode_exit (a ∷ b ∷ c ∷ d ∷ []) = some (i32_of (u32_of a b c d))
decode_exit _ = none

unfoldable pub decode_error : (Bytes → String) → Bytes → Option HostError
decode_error to_text (a ∷ b ∷ message) =
    some (record { code = u16_of a b; message = to_text message })
decode_error to_text _ = none

-- The fields at their widths, most significant byte first.
abbrev pub u16_bytes : ℕ → Bytes
u16_bytes n = n / 2 ^ 8 % 256 ∷ n % 256 ∷ []

abbrev pub u64_bytes : ℕ → Bytes
u64_bytes n = u32_bytes (n / 2 ^ 32) ++ u32_bytes (n % 2 ^ 32)

abbrev pub flag : Bool → ℕ
flag b = if b then 1 else 0

abbrev pub i32_bytes : Signed → Bytes
i32_bytes (natural n) = u32_bytes n
i32_bytes (negative n) = u32_bytes (2 ^ 32 - n)

abbrev pub ready_bytes : HostReady → Bytes
ready_bytes r = u32_bytes r.generation ++ (u32_bytes r.host_pid ++ u32_bytes r.child_pid)

abbrev pub hello_ack_bytes : HostHelloAck → Bytes
hello_ack_bytes r =
    u16_bytes r.version
    ++ (u32_bytes r.generation
        ++ (u64_bytes r.replay_from ++ (u64_bytes r.head ++ flag r.gap ∷ [])))

abbrev pub IsU32 : ℕ → Type 0
IsU32 n = n < 2 ^ 32

abbrev pub IsU64 : ℕ → Type 0
IsU64 n = n < 2 ^ 64

u32_round :
    (n : ℕ) → IsU32 n → u32_of (n / 2 ^ 24 % 256) (n / 2 ^ 16 % 256) (n / 2 ^ 8 % 256) (n % 256) ≡ n
u32_round n h = omega arith

u64_round : (n : ℕ) → u64_of (n / 2 ^ 32) (n % 2 ^ 32) ≡ n
u64_round n = omega arith

u16_round : (n : ℕ) → n < 2 ^ 16 → u16_of (n / 2 ^ 8 % 256) (n % 256) ≡ n
u16_round n h = omega arith

-- The eight bytes of a number, read as two halves.
u64_halves :
    (n : ℕ)
    → IsU64 n
    → u64_of
        (u32_of
          (n / 2 ^ 32 / 2 ^ 24 % 256)
          (n / 2 ^ 32 / 2 ^ 16 % 256)
          (n / 2 ^ 32 / 2 ^ 8 % 256)
          (n / 2 ^ 32 % 256))
        (u32_of
          (n % 2 ^ 32 / 2 ^ 24 % 256)
          (n % 2 ^ 32 / 2 ^ 16 % 256)
          (n % 2 ^ 32 / 2 ^ 8 % 256)
          (n % 2 ^ 32 % 256))
      ≡ n
u64_halves n h =
    rw (u32_round (n / 2 ^ 32) (omega arith), u32_round (n % 2 ^ 32) (omega arith)) (omega arith)

flag_round : (b : Bool) → (flag b == 1) ≡ b
flag_round b = ground arith

-- A READY whose numbers fit 32 bits is decoded to itself.
pub decode_ready-ready_bytes :
    (r : HostReady)
    → IsU32 r.generation
    → IsU32 r.host_pid
    → IsU32 r.child_pid
    → decode_ready (ready_bytes r) ≡ some r
unfolding decode_ready
decode_ready-ready_bytes r g h c =
    rw (u32_round r.generation g, u32_round r.host_pid h, u32_round r.child_pid c) refl

-- A HELLO_ACK whose version fits 16 bits, whose generation fits 32 and whose cursors fit 64 is decoded
-- to itself.
pub decode_hello_ack-hello_ack_bytes :
    (r : HostHelloAck)
    → r.version < 2 ^ 16
    → IsU32 r.generation
    → IsU64 r.replay_from
    → IsU64 r.head
    → decode_hello_ack (hello_ack_bytes r) ≡ some r
unfolding decode_hello_ack
decode_hello_ack-hello_ack_bytes r v g f h =
    rw
      (
        u16_round r.version v,
        u32_round r.generation g,
        u64_halves r.replay_from f,
        u64_halves r.head h,
        flag_round r.gap,
      )
      refl

-- What fits a signed word of 32 bits.
abbrev pub IsI32 : Signed → Type 0
IsI32 (natural n) = n < 2 ^ 31
IsI32 (negative n) = (0 < n) × (n ≤ 2 ^ 31)

-- An exit code from -2^31 to 2^31 - 1 is decoded to itself, with its sign.
pub decode_exit-i32_bytes : (code : Signed) → IsI32 code → decode_exit (i32_bytes code) ≡ some code
unfolding decode_exit
decode_exit-i32_bytes (natural n) h = rw (u32_round n (omega arith)) (ground arith)
decode_exit-i32_bytes (negative n) (p, h) = rw (u32_round (2 ^ 32 - n) (omega arith)) (ground arith)
