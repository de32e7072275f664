-- ===== src/Tests/Packets.antt =====
-- Packets under a threshold of 0, so that every one is compressed, with the format that stores bytes.
use mcbenchmark.Prelude.{
  ℕ, ◌≤◌, ◌≡◌, List, [], ◌∷◌, ◌++◌, length, length-append, ap, le→ltb, ◌+◌, arith,
}
use mcbenchmark.Prelude.Int.{ℤ, pos, negsuc}
use mcbenchmark.Prelude.Word.{i32}
use mcbenchmark.Wire.Reading.{ok, Reads}
use mcbenchmark.Wire.VarInt.{append_var_int}
use mcbenchmark.Wire.VarInt.RoundTrip.{append_var_int-eq-append, length-put_var_int}
use mcbenchmark.Packets.Position.{block_pos, unpack_block_pos, unpack_block_pos-block_pos}
use mcbenchmark.Packets.Build.{block_place}
use mcbenchmark.Packets.Parse.{parse_block_place}
use mcbenchmark.Packets.RoundTrip.{IsBlock, parse_block_place-block_place}
use mcbenchmark.Compression.{stored}
use mcbenchmark.Codec.{deflate, read_packet, write_packet, max_packet_len}
use mcbenchmark.Codec.RoundTrip.{read_packet-write_packet}

length-append_var_int :
    (v : ℤ) (rest : List ℕ) → length (append_var_int [] v ++ rest) ≤ 5 + length rest
length-append_var_int v rest = omega (
  arith,
  length-append (append_var_int [] v) rest,
  ap length (append_var_int-eq-append [] v),
  length-put_var_int v,
)

abbrev inner : List ℕ
inner = append_var_int [] (pos 27) ++ (1 ∷ 2 ∷ 3 ∷ [])

stored_small :
    (content : List ℕ) → deflate stored (pos 0) inner ≡ ok content → length content ≤ max_packet_len
unfolding deflate
stored_small content h =
    let same : append_var_int [] (i32 (length inner)) ++ inner ≡ content =
      cc (rw (le→ltb (length inner) 0 (omega arith)) at h) in
    omega (
      arith,
      ap length same,
      length-append_var_int (i32 (length inner)) inner,
      length-append_var_int (pos 27) (1 ∷ 2 ∷ 3 ∷ []),
    )

read_packet-write_packet_example :
    (sent : List ℕ) × (write_packet stored (pos 0) (pos 27) (1 ∷ 2 ∷ 3 ∷ []) ≡ ok sent)
    × Reads (read_packet stored (pos 0)) sent (pos 27, 1 ∷ 2 ∷ 3 ∷ [])
read_packet-write_packet_example =
    read_packet-write_packet stored (pos 0) (pos 27) (1 ∷ 2 ∷ 3 ∷ []) (omega arith)
      (omega (arith, length-append_var_int (pos 27) (1 ∷ 2 ∷ 3 ∷ []))) stored_small

near_spawn : IsBlock (negsuc 200) (pos 64) (pos 33000000)
near_spawn = record { x_fits = omega arith; y_fits = omega arith; z_fits = omega arith }

unpack_block_pos-block_pos_example :
    unpack_block_pos (block_pos (negsuc 200) (pos 64) (pos 33000000))
    ≡ (negsuc 200, pos 64, pos 33000000)
unpack_block_pos-block_pos_example =
    unpack_block_pos-block_pos (negsuc 200) (pos 64) (pos 33000000) (omega arith) (omega arith)
      (omega arith)

parse_block_place-block_place_example :
    parse_block_place (block_place (pos 0) (negsuc 200) (pos 64) (pos 33000000) (pos 1) (pos 9))
    ≡ ok (record { hand = pos 0; x = negsuc 200; y = pos 64; z = pos 33000000; face = pos 1 })
parse_block_place-block_place_example =
    parse_block_place-block_place (pos 0) (negsuc 200) (pos 64) (pos 33000000) (pos 1) (pos 9)
      (omega arith) (omega arith) near_spawn
