-- ===== src/Host/Stream.antt =====
-- The frames that come out of a stream, however it is cut into chunks: `frame` and `HostFrameDecoder` of
-- roomsd/src/runtime/host/codec.ts.
mod Draining
use wardroom.Base.{
  ℕ, zero, suc, ◌+◌, ◌/◌, ◌%◌, ◌^◌, ◌<◌, ◌≡◌, refl, ap, Option, none, some, List, [], ◌∷◌, ◌++◌,
  arith, length, length-append, append_assoc, append-nil, Option-cases, inl, inr, ◌⊎◌,
}
use wardroom.Host.{
  Bytes, HostFrame, u32_bytes, u32_of, frame, split, Round, waits, bad, yields, round, drain, push,
  feed, concat, encode_all,
}
use wardroom.Host.Stream.Draining.{
  Round-cases, round-shorter, drain-append, drain-append_none, drain-waits, drain-waiting,
}

-- From a buffer that holds no whole frame, chunks that arrive one by one give the frames and the rest
-- that they give at once, or fail where that fails.
pub feed-push :
    (buffer : Bytes) (chunks : List Bytes)
    → round buffer ≡ waits
    → feed buffer chunks ≡ push buffer (concat chunks)
unfolding feed push
feed-push buffer [] w = rw (append-nil buffer, drain-waiting (length buffer) buffer w) refl
feed-push buffer (c ∷ cs) w =
    let all = buffer ++ c in
    let assoc = append_assoc buffer c (concat cs) in
    let f = suc (length all) in
    let g = suc (length (all ++ concat cs)) in
    elim (Option-cases (drain f all)) [
      | inl stopped ↦
          let none_left =
            drain-append_none f g all (concat cs) (omega arith) (omega arith) stopped in
          ground (arith, assoc, none_left)
      | inr ((fs, left), went) ↦
          let h = suc (length (left ++ concat cs)) in
          let joined =
            drain-append f g h all (concat cs) left fs (omega arith) (omega arith) (omega arith)
              went in
          let later = feed-push left cs (drain-waits f all left fs (omega arith) went) in
          elim (Option-cases (drain h (left ++ concat cs))) [
            | inl e₁ ↦ ground (arith, assoc)
            | inr (r, e₁) ↦ ground (arith, assoc)
          ]
    ]

split_exactly : (xs ys : Bytes) → split (length xs) (xs ++ ys) ≡ some (xs, ys)
unfolding split
split_exactly [] ys = refl
split_exactly (x ∷ xs) ys = ground (arith, split_exactly xs ys)

u32_of-u32_bytes :
    (n : ℕ)
    → n < 2 ^ 32
    → u32_of (n / 2 ^ 24 % 256) (n / 2 ^ 16 % 256) (n / 2 ^ 8 % 256) (n % 256) ≡ n
u32_of-u32_bytes n h = omega arith

round-frame :
    (f : HostFrame) (bs rest : Bytes) → frame f ≡ some bs → round (bs ++ rest) ≡ yields f rest
unfolding frame round
round-frame f bs rest e =
    let n = length f.payload + 1 in
    let small : n < 2 ^ 32 = ground arith in
    let written : bs ≡ u32_bytes n ++ f.type ∷ f.payload = ground arith in
    let read : u32_of (n / 2 ^ 24 % 256) (n / 2 ^ 16 % 256) (n / 2 ^ 8 % 256) (n % 256)
        ≡ suc (length f.payload) =
      omega (arith, u32_of-u32_bytes n small) in
    let cut = split_exactly (f.type ∷ f.payload) rest in rw (written, read, cut) (ground arith)

drain-encode_all :
    (fs : List HostFrame) (bs : Bytes) (fuel : ℕ)
    → encode_all fs ≡ some bs
    → length bs < fuel
    → drain fuel bs ≡ some (fs, [])
unfolding encode_all drain round
drain-encode_all fs bs zero e h = absurd (omega arith)
drain-encode_all [] bs (suc fuel) e h =
    let nothing : bs ≡ [] = ground arith in rw nothing (drain-waiting fuel [] refl)
drain-encode_all (f ∷ fs) bs (suc fuel) e h = elim (Option-cases (frame f)) [
  | inl wrong ↦ absurd (ground arith)
  | inr (xs, written) ↦ elim (Option-cases (encode_all fs)) [
    | inl wrong ↦ absurd (ground arith)
    | inr (ys, others) ↦
        let joined : bs ≡ xs ++ ys = ground arith in
        let next = round-frame f xs ys written in
        let fit = round-shorter (xs ++ ys) ys f next in
        let same = ap length joined in
        let shorter : length ys < fuel = omega (arith, fit, same) in
        ground (arith, drain-encode_all fs ys fuel others shorter)
  ]
]

-- The frames that are encoded come out of any chunks of their bytes, with nothing left over.
pub feed-encode_all :
    (fs : List HostFrame) (bs : Bytes) (chunks : List Bytes)
    → encode_all fs ≡ some bs
    → concat chunks ≡ bs
    → feed [] chunks ≡ some (fs, [])
unfolding push round
feed-encode_all fs bs chunks e h =
    rw (feed-push [] chunks refl, h) (drain-encode_all fs bs (suc (length bs)) e (omega arith))
