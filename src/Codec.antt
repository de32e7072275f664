-- ===== src/Codec.antt =====
-- go/internal/mcproto/codec.go: packets on a connection, with or without compression. The connection
-- is the list of the bytes that are still to come, and a write returns the bytes that it sends.
-- `ReadVarIntFrom` (go/internal/mcwire/wire.go) is `VarInt` on such a list.
pub mod RoundTrip
pub mod Lengths
use mcbenchmark.Prelude.{
  ℕ, zero, suc, ◌*◌, ◌^◌, List, [], ◌++◌, length, take, drop, ltb, if◌then◌else◌, some, none,
}
use mcbenchmark.Prelude.Int.{ℤ, pos, negsuc, ltb_ℤ}
use mcbenchmark.Prelude.Word.{i32}
use mcbenchmark.Wire.Reading.{
  Result, ok, err, short, bad_packet_length, bad_compression, panics, Reader, ◌>>=◌, fail,
}
use mcbenchmark.Wire.Outcome.{or_fail}
use mcbenchmark.Wire.VarInt.{append_var_int, var_int}
use mcbenchmark.Compression.{Compression}

-- `MaxPacketLen = 8 << 20`
abbrev pub max_packet_len : ℕ
max_packet_len = 8 * 2 ^ 20

-- `frame := make([]byte, length); io.ReadFull(c.r, frame)`, behind the test of the length
unfoldable pub frame_of_len : ℤ → Reader (List ℕ)
frame_of_len (negsuc n) = fail bad_packet_length
frame_of_len (pos zero) = fail bad_packet_length
frame_of_len (pos (suc n)) = λ bs.
    if ltb max_packet_len (suc n)
    then err bad_packet_length
    else if ltb (length bs) (suc n)
    then err short
    else ok (take (suc n) bs, drop (suc n) bs)

-- `frame = mcwire.AppendVarInt(nil, int32(len(data))); frame = append(frame, data...)`
unfoldable pub frame_of : List ℕ → List ℕ
frame_of content = append_var_int [] (i32 (length content)) ++ content

module _ (zlib : Compression) where
  -- The payload behind the data length: a negative one makes `make([]byte, dataLen)` panic, behind
  -- the first look of zlib at the stream.
  unfoldable pub inflate : ℤ → List ℕ → Result (List ℕ)
  inflate (pos zero) rest = ok rest
  inflate (negsuc n) rest = elim (zlib.decompress rest) [
    | some out ↦ err panics
    | none ↦ err bad_compression
  ]
  inflate (pos (suc n)) rest =
      if ltb max_packet_len (suc n) then err bad_packet_length else elim (zlib.decompress rest) [
        | some out ↦ if ltb (length out) (suc n) then err short else ok (take (suc n) out)
        | none ↦ err bad_compression
      ]

  -- The payload of a frame under a threshold, which is negative while compression is off.
  unfoldable pub payload_of : ℤ → List ℕ → Result (List ℕ)
  unfolding inflate
  payload_of (negsuc n) frame = ok frame
  payload_of (pos n) frame = elim (var_int frame) [
    | ok (len, rest) ↦ inflate len rest
    | err x ↦ err x
  ]

  unfoldable pub packet_of : ℤ → List ℕ → Reader (ℤ × List ℕ)
  unfolding payload_of
  packet_of threshold frame rest = elim (payload_of threshold frame) [
    | ok payload ↦ elim (var_int payload) [ ok (id, body) ↦ ok ((id, body), rest) | err x ↦ err x ]
    | err x ↦ err x
  ]

  unfoldable pub read_packet : ℤ → Reader (ℤ × List ℕ)
  read_packet threshold = do len ← var_int; frame ← frame_of_len len; packet_of threshold frame

  -- The data of a frame, from the packet's number and body.
  unfoldable pub deflate : ℤ → List ℕ → Result (List ℕ)
  deflate (negsuc n) inner = ok inner
  deflate (pos threshold) inner =
      if ltb (length inner) threshold
      then ok (append_var_int [] (pos 0) ++ inner)
      else elim (zlib.compress inner) [
        | some z ↦ ok (append_var_int [] (i32 (length inner)) ++ z)
        | none ↦ err bad_compression
      ]

  unfoldable pub write_packet : ℤ → ℤ → List ℕ → Result (List ℕ)
  unfolding frame_of deflate
  write_packet threshold id body = elim (deflate threshold (append_var_int [] id ++ body)) [
    | ok content ↦ ok (frame_of content)
    | err x ↦ err x
  ]
