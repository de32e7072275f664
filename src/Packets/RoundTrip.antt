-- ===== src/Packets/RoundTrip.antt =====
-- go/internal/mcproto/packets.go: what a packet's builder writes is what its parser reads.
use mcbenchmark.Prelude.{
  ℕ, ◌≤◌, ◌<◌, ◌^◌, ◌≡◌, ◌∙◌, List, [], ◌∷◌, ◌++◌, All, length, length-append, lt→ltb, le→ltb,
  arith,
}
use mcbenchmark.Prelude.Int.{ℤ, pos}
use mcbenchmark.Prelude.Word.{IsI32, IsI64, Fits}
use mcbenchmark.Wire.Reading.{
  ok, err, implausible_count, run, Reads, Reads-bind, Reads-last, Reads-pure, run-bind,
  run-bind_end, run-pure, run-Reads,
}
use mcbenchmark.Wire.VarInt.{put_var_int}
use mcbenchmark.Wire.VarInt.RoundTrip.{var_int-Reads, length-put_var_int}
use mcbenchmark.Wire.Fixed.{put_int64_be}
use mcbenchmark.Wire.Fixed.RoundTrip.{int64_be-Reads, int32_be-Reads}
use mcbenchmark.Packets.Position.{block_pos, unpack_block_pos-block_pos, block_pos-IsI64}
use mcbenchmark.Packets.Build.{keep_alive, pong, block_place}
use mcbenchmark.Packets.Parse.{
  parse_keep_alive, parse_ping, read_block_place, parse_block_place, read_block_update,
  parse_block_update, read_ids, ids_of_count, read_remove_entities, parse_remove_entities,
}

-- The number of a keep-alive comes back unchanged: the answer that a session builds carries the
-- number that it read.
pub parse_keep_alive-keep_alive : (id : ℤ) → IsI64 id → parse_keep_alive (keep_alive id) ≡ ok id
unfolding parse_keep_alive keep_alive
parse_keep_alive-keep_alive id h = run-Reads (int64_be-Reads id h)

pub parse_ping-pong : (id : ℤ) → IsI32 id → parse_ping (pong id) ≡ ok id
unfolding parse_ping pong
parse_ping-pong id h = run-Reads (int32_be-Reads id h)

-- The coordinates a position word can hold.
pub record IsBlock (x y z : ℤ) : Type 0 where
  pub x_fits : Fits (2 ^ 25) x
  pub y_fits : Fits (2 ^ 11) y
  pub z_fits : Fits (2 ^ 25) z

-- A click against a block is read back with its hand, its position and its face, where these fit
-- the widths of the packet.
pub parse_block_place-block_place :
    (hand x y z face sequence : ℤ)
    → IsI32 hand
    → IsI32 face
    → IsBlock x y z
    → parse_block_place (block_place hand x y z face sequence)
      ≡ ok (record { hand = hand; x = x; y = y; z = z; face = face })
unfolding parse_block_place read_block_place block_place
parse_block_place-block_place hand x y z face sequence hh hf b =
    run-bind _ _ (var_int-Reads hand hh)
    ∙ run-bind _ _ (int64_be-Reads (block_pos x y z) (block_pos-IsI64 x y z))
    ∙ run-bind _ _ (var_int-Reads face hf)
    ∙ rw (unpack_block_pos-block_pos x y z b.x_fits b.y_fits b.z_fits) (run-pure _ _)

-- The server's verdict on a block, as it stands on the wire.
abbrev pub block_update_body : ℤ → ℤ → ℤ → ℤ → List ℕ
block_update_body x y z state_id = put_int64_be (block_pos x y z) ++ put_var_int state_id

-- A position word and a state are read as the position and the state they stand for.
pub parse_block_update_lem :
    (x y z state_id : ℤ)
    → IsBlock x y z
    → IsI32 state_id
    → parse_block_update (block_update_body x y z state_id)
      ≡ ok (record { x = x; y = y; z = z; state_id = state_id })
unfolding parse_block_update read_block_update
parse_block_update_lem x y z state_id b hs =
    run-bind _ _ (int64_be-Reads (block_pos x y z) (block_pos-IsI64 x y z))
    ∙ run-bind_end _ (var_int-Reads state_id hs)
    ∙ rw (unpack_block_pos-block_pos x y z b.x_fits b.y_fits b.z_fits) (run-pure _ [])

-- The entities of a list, one VarInt each.
unfoldable pub put_ids : List ℤ → List ℕ
put_ids [] = []
put_ids (id ∷ ids) = put_var_int id ++ put_ids ids

read_ids-Reads : (ids : List ℤ) → All IsI32 ids → Reads (read_ids (length ids)) (put_ids ids) ids
unfolding read_ids put_ids
read_ids-Reads [] h = Reads-pure
read_ids-Reads (id ∷ ids) h =
    Reads-bind _ (var_int-Reads id h.0) (Reads-last _ (read_ids-Reads ids h.1) Reads-pure)

length-le-put_ids : (ids : List ℤ) → length ids ≤ length (put_ids ids)
unfolding put_ids
length-le-put_ids [] = omega arith
length-le-put_ids (id ∷ ids) = omega (
  arith,
  length-append (put_var_int id) (put_ids ids),
  length-put_var_int id,
  length-le-put_ids ids,
)

ids_of_count-Reads :
    {n : ℕ} {bs : List ℕ} {ids : List ℤ}
    → Reads (read_ids n) bs ids
    → n ≤ length bs
    → run (ids_of_count (pos n)) bs ≡ ok ids
unfolding run ids_of_count
ids_of_count-Reads {n} {bs} r enough =
    rw (run, ids_of_count, le→ltb (length bs) n enough) (run-Reads r)

-- A list of entities that is written whole is read whole.
pub parse_remove_entities_lem :
    (ids : List ℤ)
    → All IsI32 ids
    → length ids < 2 ^ 31
    → parse_remove_entities (put_var_int (pos (length ids)) ++ put_ids ids) ≡ ok ids
unfolding parse_remove_entities read_remove_entities
parse_remove_entities_lem ids h few =
    run-bind ids_of_count _ (var_int-Reads (pos (length ids)) few)
    ∙ ids_of_count-Reads (read_ids-Reads ids h) (omega (arith, length-le-put_ids ids))

-- A count of more entities than there are bytes left is refused before any of them is read.
pub parse_remove_entities-implausible :
    (n : ℕ) (rest : List ℕ)
    → n < 2 ^ 31
    → length rest < n
    → parse_remove_entities (put_var_int (pos n) ++ rest) ≡ err implausible_count
unfolding parse_remove_entities read_remove_entities run ids_of_count
parse_remove_entities-implausible n rest small many =
    run-bind ids_of_count rest (var_int-Reads (pos n) small)
    ∙ rw (run, ids_of_count, lt→ltb _ _ many)
