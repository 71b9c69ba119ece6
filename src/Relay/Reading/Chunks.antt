-- ===== src/Relay/Reading/Chunks.antt =====
-- The lines that come out of a stream, however it is cut into chunks: `RelayFrameReader` of
-- roomsd/src/federation/relay-protocol.ts.
use wardroom.Base.{
  ℕ, zero, suc, ltb, leb, ◌&&◌, ◌||◌, true, if◌then◌else◌, map, ◌≤◌, ◌≡◌, refl, sym, ap, ◌∙◌, Bool,
  some, List, [], ◌∷◌, ◌++◌, arith, All, append_assoc, append-nil, false,
}
use wardroom.Relay.Reading.{
  Units, utf8_length, bytes_from, cut, push, feed, concat, Bytes, Chunk, bytes, chunk_text,
  relay_max_frame_bytes,
}
use wardroom.Relay.Reading.Cutting.{
  Cut, after, cut-append, IsOpen, cut-IsOpen, FitsIn, IsFit, after-IsFit, push_text-cut,
  IsOpen-tail,
}

after-pair : (ls : List Units) (o : Cut) → after ls o ≡ (ls ++ o.0, o.1)
after-pair ls (ms, rest) = refl

-- A buffer that ends where a character ends: behind the first byte of each of its characters stand as many
-- continuation bytes as that one announces.
abbrev is_lead : ℕ → Bool
is_lead b = ltb b 0x80 || leb 0xc2 b && leb b 0xf4

abbrev followers : ℕ → ℕ
followers b = if ltb b 0x80 then 0 else if ltb b 0xe0 then 1 else if ltb b 0xf0 then 2 else 3

abbrev is_continuation : ℕ → Bool
is_continuation b = leb 0x80 b && leb b 0xbf

unfoldable pub is_whole_from : (pending : ℕ) → Bytes → Bool
is_whole_from zero [] = true
is_whole_from (suc n) [] = false
is_whole_from zero (b ∷ bs) = is_lead b && is_whole_from (followers b) bs
is_whole_from (suc n) (b ∷ bs) = is_continuation b && is_whole_from n bs

abbrev pub IsWhole : Bytes → Type 0
IsWhole bs = is_whole_from 0 bs ≡ true

abbrev pub joined : List Bytes → Bytes
joined [] = []
joined (c ∷ cs) = c ++ joined cs

-- The text of lines, each with its newline.
abbrev pub unlines : List Units → Units
unlines [] = []
unlines (l ∷ ls) = l ++ b'\n' ∷ unlines ls

-- A line of a stream: no newline in it, and not too long.
abbrev pub IsLine : Units → Type 0
IsLine l = (cut l ≡ ([], l)) × (utf8_length l ≤ relay_max_frame_bytes)

cut-line : (l rest : Units) → IsOpen l → cut (l ++ b'\n' ∷ rest) ≡ (l ∷ (cut rest).0, (cut rest).1)
unfolding cut
cut-line [] rest h = refl
cut-line (c ∷ l) rest h = let (e, opened) = IsOpen-tail c l h in rw (e, cut-line l rest opened) refl

cut-unlines : (ls : List Units) → All IsLine ls → cut (unlines ls) ≡ (ls, [])
unfolding cut IsOpen
cut-unlines [] h = refl
cut-unlines (l ∷ ls) (line, h) = cut-line l (unlines ls) line.0 ∙ rw (cut-unlines ls h) refl

lines-FitsIn : (ls : List Units) → All IsLine ls → All FitsIn ls
lines-FitsIn [] h = tt
lines-FitsIn (l ∷ ls) (line, h) = (line.1, lines-FitsIn ls h)

module _ (text_of : Bytes → Units) where
  feed-cons :
      (buffer rest : Units) (c : Chunk) (cs : List Chunk) (lines more : List Units) (last : Units)
      → push text_of buffer c ≡ some (lines, rest)
      → feed text_of rest cs ≡ some (more, last)
      → feed text_of buffer (c ∷ cs) ≡ some (lines ++ more, last)
  unfolding feed
  feed-cons buffer rest c cs lines more last e h = ground arith

  abbrev texts : List Chunk → Units
  texts cs = concat (map (chunk_text text_of) cs)

  -- Chunks that arrive one by one, of a stream whose lines fit.
  feed-cut_open :
      (buffer : Units) (chunks : List Chunk)
      → IsOpen buffer
      → IsFit (cut (buffer ++ texts chunks))
      → feed text_of buffer chunks ≡ some (cut (buffer ++ texts chunks))
  unfolding feed push IsOpen
  feed-cut_open buffer [] opened h = rw (append-nil buffer, opened) refl
  feed-cut_open buffer (chunk ∷ cs) opened h =
      let c = chunk_text text_of chunk in
      let all = buffer ++ c in
      let assoc = append_assoc buffer c (texts cs) in
      let whole : IsFit (cut (all ++ texts cs)) = rw assoc h in
      let rest =
        after-IsFit (cut all).0 (cut ((cut all).1 ++ texts cs))
          (rw (cut-append all (texts cs)) at whole) in
      let later = feed-cut_open (cut all).1 cs (cut-IsOpen all) rest in
      let whole_cut =
        cut-append all (texts cs) ∙ after-pair (cut all).0 (cut ((cut all).1 ++ texts cs)) in
      feed-cons buffer (cut all).1 chunk cs (cut all).0 _ _
        (push_text-cut buffer c (texts cs) whole) later
      ∙ ap some (sym whole_cut ∙ ap cut assoc)

  -- The texts of chunks that are cut between characters, in a row.
  texts-joined :
      (chunks : List Bytes)
      → text_of [] ≡ []
      → ((xs ys : Bytes) → IsWhole xs → text_of (xs ++ ys) ≡ text_of xs ++ text_of ys)
      → All IsWhole chunks
      → texts (map bytes chunks) ≡ text_of (joined chunks)
  texts-joined [] none_of whole_of h = sym none_of
  texts-joined (c ∷ cs) none_of whole_of (w, h) =
      rw (whole_of c (joined cs) w, texts-joined cs none_of whole_of h) refl

  -- Buffers that hold whole characters and whose bytes in a row are the text of lines, each of at
  -- most 16384 bytes and without a newline in it, give these lines as they are; nothing is left
  -- over and nothing is thrown, wherever else the stream is cut into buffers. The decoder turns no
  -- bytes into no text, and whole characters in front of other bytes into their own text in front
  -- of the others'.
  pub feed-unlines :
      (ls : List Units) (chunks : List Bytes)
      → text_of [] ≡ []
      → ((xs ys : Bytes) → IsWhole xs → text_of (xs ++ ys) ≡ text_of xs ++ text_of ys)
      → All IsLine ls
      → All IsWhole chunks
      → text_of (joined chunks) ≡ unlines ls
      → feed text_of [] (map bytes chunks) ≡ some (ls, [])
  unfolding IsOpen bytes_from cut
  feed-unlines ls chunks none_of whole_of h w e =
      let same = texts-joined chunks none_of whole_of w ∙ e in
      let whole = cut-unlines ls h in
      let fit : IsFit (cut (texts (map bytes chunks))) =
        rw (same, whole) (lines-FitsIn ls h, omega arith) in
      feed-cut_open [] (map bytes chunks) refl fit ∙ ap some (ap cut same ∙ whole)
