-- ===== src/Host/Tests.antt =====
-- Two frames in three chunks, and a greeting.
use wardroom.Base.{◌^◌, ◌≡◌, refl, true, some, List, [], ◌∷◌, arith}
use wardroom.Host.{Bytes, HostFrame, frame, split, round, drain, push, feed, encode_all, concat}
use wardroom.Host.Stream.{feed-push, feed-encode_all}
use wardroom.Host.Messages.{
  HostHelloAck, Signed, decode_ready, decode_hello_ack, decode_exit, hello_ack_bytes, i32_bytes,
  decode_hello_ack-hello_ack_bytes, decode_exit-i32_bytes,
}

runs : Unit {0}
unfolding frame split round drain push feed encode_all decode_ready decode_hello_ack decode_exit
runs = tt

abbrev ping : HostFrame
ping = record { type = 8; payload = [] }

abbrev output : HostFrame
output = record { type = 3; payload = 1 ∷ 2 ∷ [] }

abbrev chunks : List Bytes
chunks = (0 ∷ 0 ∷ []) ∷ (0 ∷ 1 ∷ 8 ∷ 0 ∷ []) ∷ (0 ∷ 0 ∷ 3 ∷ 3 ∷ 1 ∷ 2 ∷ []) ∷ []

encoded : encode_all (ping ∷ output ∷ []) ≡ some (concat chunks)
unfolding runs
encoded = refl

feed-encode_all_example : feed [] chunks ≡ some (ping ∷ output ∷ [], [])
feed-encode_all_example = feed-encode_all (ping ∷ output ∷ []) (concat chunks) chunks encoded refl

feed-push_example : feed (0 ∷ []) chunks ≡ push (0 ∷ []) (concat chunks)
unfolding runs
feed-push_example = feed-push (0 ∷ []) chunks refl

abbrev greeting : HostHelloAck
greeting = record { version = 1; generation = 7; replay_from = 5; head = 2 ^ 40; gap = true }

decode_hello_ack-hello_ack_bytes_example :
    decode_hello_ack (hello_ack_bytes greeting) ≡ some greeting
decode_hello_ack-hello_ack_bytes_example =
    decode_hello_ack-hello_ack_bytes greeting (omega arith) (omega arith) (omega arith)
      (omega arith)

decode_exit-i32_bytes_example :
    decode_exit (i32_bytes (Signed.negative 9)) ≡ some (Signed.negative 9)
decode_exit-i32_bytes_example = decode_exit-i32_bytes (Signed.negative 9) (omega arith)
