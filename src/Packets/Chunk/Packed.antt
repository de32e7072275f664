-- ===== src/Packets/Chunk/Packed.antt =====
-- go/internal/mcproto/chunk.go: the entries of packed words, and the blocks that reading them visits.
use native.Mathlib.Nat.{div-add-mod', mod-lt, div-mul-le_self, div-lt_iff_lt-mul}
use mcbenchmark.Prelude.{
  ℕ, zero, suc, ◌+◌, ◌-◌, ◌*◌, ◌/◌, ◌%◌, ◌^◌, ◌≤◌, ◌<◌, ◌≡◌, refl, sym, ap, ◌∙◌, List, [], ◌∷◌,
  length, take, drop, length-append, length-take, All, arith,
}
use mcbenchmark.Prelude.Bits.{bit_and-ones}
use mcbenchmark.Wire.Fixed.{be}
use mcbenchmark.Wire.Fixed.RoundTrip.{length-be}
use mcbenchmark.Prelude.{Bool, Option}
use mcbenchmark.Prelude.Int.{ℤ, pos}
use mcbenchmark.Prelude.Word.{i32}
use mcbenchmark.Replay.Ledger.{Position}
use mcbenchmark.Wire.Bytes.{bytes, bytes-Reads}
use mcbenchmark.Wire.Reading.{Result, ok, Reads, Reads-bind, Reads-last, Reads-pure}
use mcbenchmark.Packets.Chunk.{Corner, un_index, longs_for, section_entries}
use mcbenchmark.Packets.Chunk.Containers.{lift, read_longs}
use mcbenchmark.Packets.Chunk.States.{
  Writes, keep_state, state_of, long_at, entry_bits, unpack, packed_states,
}
use mcbenchmark.Packets.Chunk.Words.{
  All-drop, All-take, long_at-put_longs, nth, nth-drop, nth-take, pow-le, put_longs, word, word-lt,
  word_entry,
}

module _ (bpe : ℕ) (vs : List ℕ) (m : ℕ) (fit : All (λ v. v < 2 ^ bpe) vs)
    (room : longs_for bpe (length vs) ≡ ok m) where
  per_long_pos : 1 ≤ 64 / bpe
  unfolding longs_for
  per_long_pos = ground arith

  words : m ≡ (length vs + 64 / bpe - 1) / (64 / bpe)
  unfolding longs_for
  words = ground arith

  enough : length vs ≤ m * (64 / bpe)
  enough =
      let per = 64 / bpe in
      let total = length vs + per - 1 in
      omega (
        arith,
        per_long_pos,
        ap (λ (t : ℕ). t * per) words,
        div-add-mod' total per,
        mod-lt total {m = per} per_long_pos,
      )

  word_fits : (n : ℕ) → word bpe (take (64 / bpe) (drop (n * (64 / bpe)) vs)) < 2 ^ 64
  word_fits n =
      let some_entries = take (64 / bpe) (drop (n * (64 / bpe)) vs) in
      let few : length some_entries ≤ 64 / bpe =
        omega (arith, length-take (64 / bpe) (drop (n * (64 / bpe)) vs)) in
      omega (
        arith,
        word-lt bpe some_entries (
            All-take (λ v. v < 2 ^ bpe) (64 / bpe) _
              (All-drop (λ v. v < 2 ^ bpe) (n * (64 / bpe)) vs fit)),
        pow-le (bpe * length some_entries) 64 (product_le (length some_entries) few),
      )
    where
      product_le : (k : ℕ) → k ≤ 64 / bpe → bpe * k ≤ 64
      product_le k h = grind (arith, div-mul-le_self 64 bpe)

  -- The entry that was written is the entry that is read.
  entry_bits-put_longs :
      (i : ℕ) → i < length vs → entry_bits (put_longs bpe (64 / bpe) m vs) bpe i ≡ nth vs i
  unfolding entry_bits
  entry_bits-put_longs i h =
      let per = 64 / bpe in
      let row = i / per in
      let in_row : row < m =
        (div-lt_iff_lt-mul {k = per} {x = i} {y = m} per_long_pos).1 (omega (arith, enough)) in
      let column : i % per < per = mod-lt i {m = per} per_long_pos in
      let here = take per (drop (row * per) vs) in
      bit_and-ones bpe (long_at (put_longs bpe per m vs) row / 2 ^ (i % per * bpe))
      ∙ ap (λ t. t / 2 ^ (i % per * bpe) % 2 ^ bpe)
          (long_at-put_longs bpe per m row vs in_row word_fits)
      ∙ word_entry bpe here (i % per)
          (All-take (λ v. v < 2 ^ bpe) per _ (All-drop (λ v. v < 2 ^ bpe) (row * per) vs fit))
      ∙ nth-take per (i % per) (drop (row * per) vs) column
      ∙ nth-drop (row * per) (i % per) vs
      ∙ ap (nth vs) (div-add-mod' i per)

length-put_longs : (bpe per m : ℕ) (vs : List ℕ) → length (put_longs bpe per m vs) ≡ m * 8
unfolding put_longs
length-put_longs bpe per zero vs = omega arith
length-put_longs bpe per (suc m) vs =
    let w = word bpe (take per vs) in
    omega (
      arith,
      length-append (be 8 w) (put_longs bpe per m (drop per vs)),
      length-be 8 w,
      length-put_longs bpe per m (drop per vs),
    )

lift-Reads {ℓ} : {A : Type ℓ} (r : Result A) {a : A} → r ≡ ok a → Reads (lift r) [] a
unfolding lift
lift-Reads r h = rw h Reads-pure

read_longs-Reads :
    (bpe n m : ℕ) (raw : List ℕ)
    → longs_for bpe n ≡ ok m
    → length raw ≡ m * 8
    → Reads (read_longs bpe n) raw raw
unfolding read_longs
read_longs-Reads bpe n m raw room size =
    Reads-bind (λ longs. bytes (pos (longs * 8))) (lift-Reads (longs_for bpe n) room)
      (rw (← size) (bytes-Reads raw))

module _ (want : Position → Bool) (corner : Corner) (palette : Option (List ℤ)) where
  -- The blocks of a list of entries, from entry `i`: where one is wanted, the state of its entry.
  unfoldable pub blocks_of : List ℕ → ℕ → Result Writes
  blocks_of [] i = ok []
  blocks_of (v ∷ vs) i =
      keep_state (want (un_index i corner)) (un_index i corner) (state_of palette (i32 v))
        (blocks_of vs (i + 1))

  unpack-blocks_of :
      (raw : List ℕ) (bpe : ℕ) (vs : List ℕ) (i : ℕ)
      → ((j : ℕ) → j < length vs → entry_bits raw bpe (i + j) ≡ nth vs j)
      → unpack want corner raw bpe palette (length vs) i ≡ blocks_of vs i
  unfolding unpack blocks_of
  unpack-blocks_of raw bpe [] i same = refl
  unpack-blocks_of raw bpe (v ∷ vs) i same =
      let e : i + 0 ≡ i = omega arith in
      let here : entry_bits raw bpe i ≡ v =
        ap (entry_bits raw bpe) (sym e) ∙ same 0 (omega arith) in
      let p = un_index i corner in
      ap
        (λ t.
          keep_state (want p) p (state_of palette (i32 t))
            (unpack want corner raw bpe palette (length vs) (i + 1)))
        here
      ∙ ap (keep_state (want p) p (state_of palette (i32 v)))
          (unpack-blocks_of raw bpe vs (i + 1) (λ j h. shifted j ∙ same (suc j) (omega arith)))
    where
      shifted : (j : ℕ) → entry_bits raw bpe (i + 1 + j) ≡ entry_bits raw bpe (i + suc j)
      shifted j = let e : i + 1 + j ≡ i + suc j = omega arith in ap (entry_bits raw bpe) e

  -- A section's words, of entries of `bpe` bits each, are read as the states of their entries: at each
  -- position that is wanted the state that its entry stands for, and nothing elsewhere.
  pub packed_states-put_longs :
      (bpe : ℕ) (vs : List ℕ) (m : ℕ) (ws : Writes)
      → All (λ v. v < 2 ^ bpe) vs
      → length vs ≡ section_entries
      → longs_for bpe section_entries ≡ ok m
      → blocks_of vs 0 ≡ ok ws
      → Reads (packed_states want corner bpe palette) (put_longs bpe (64 / bpe) m vs) ws
  unfolding packed_states
  packed_states-put_longs bpe vs m ws fit whole room seen =
      let raw = put_longs bpe (64 / bpe) m vs in
      let entries : unpack want corner raw bpe palette section_entries 0 ≡ ok ws =
        ap (λ n. unpack want corner raw bpe palette n 0) (sym whole)
        ∙ unpack-blocks_of raw bpe vs 0
            (λ j h. read_back bpe vs m fit (ap (longs_for bpe) whole ∙ room) j h)
        ∙ seen in
      Reads-last _
        (read_longs-Reads bpe section_entries m raw room (length-put_longs bpe (64 / bpe) m vs))
        (lift-Reads _ entries)
    where
      read_back :
          (bpe : ℕ) (vs : List ℕ) (m : ℕ)
          → All (λ v. v < 2 ^ bpe) vs
          → longs_for bpe (length vs) ≡ ok m
          → (j : ℕ) → j < length vs
          → entry_bits (put_longs bpe (64 / bpe) m vs) bpe (0 + j) ≡ nth vs j
      read_back bpe vs m fit room j h =
          let e : 0 + j ≡ j = omega arith in
          ap (entry_bits (put_longs bpe (64 / bpe) m vs) bpe) e
          ∙ entry_bits-put_longs bpe vs m fit room j h
