-- ===== src/Event/RoundTrip.antt =====
-- `Decode` is the inverse of `Encode`.
use mcbenchmark.Prelude.{ℕ, ◌^◌, ◌<◌, ◌≡◌, List, length}
use mcbenchmark.Prelude.Int.{pos}
use mcbenchmark.Prelude.Word.{IsI32, IsI64}
use mcbenchmark.Wire.Reading.{ok, Reads, Reads-bind, Reads-last, Reads-pure, run-Reads}
use mcbenchmark.Wire.Bytes.{bytes, bytes-Reads}
use mcbenchmark.Wire.VarInt.RoundTrip.{var_int-Reads}
use mcbenchmark.Wire.Fixed.RoundTrip.{int64_be-Reads, string-Reads, len_i32-Reads}
use mcbenchmark.Event.{RawEvent, encode, decode, payload_of_len, decode_event}
use mcbenchmark.Prelude.{length-append, ◌+◌, ◌≤◌, arith}
use mcbenchmark.Prelude.Word.{u64}
use mcbenchmark.Wire.VarInt.RoundTrip.{length-put_var_int}
use mcbenchmark.Wire.Fixed.{put_string, put_int64_be, len_i32}
use mcbenchmark.Wire.Fixed.RoundTrip.{length-be}

-- The event fits the widths of its Go fields, and its lengths fit an int32.
pub record IsEvent (e : RawEvent) : Type 0 where
  pub t_fits : IsI64 e.t_micro
  pub player_is_hash : length e.player_id ≡ 32
  pub seq_fits : IsI32 e.session_seq
  pub dimension_fits : IsI32 e.dimension_id
  pub chunk_x_fits : IsI32 e.coarse_chunk_x
  pub chunk_z_fits : IsI32 e.coarse_chunk_z
  pub region_fits : length e.region_id < 2 ^ 31
  pub kind_fits : IsI32 e.kind
  pub payload_fits : length e.payload < 2 ^ 31

player-Reads : (id : List ℕ) → length id ≡ 32 → Reads (bytes (pos 32)) id id
player-Reads id h = rw h at (bytes-Reads id)

payload-Reads : (p : List ℕ) → Reads (payload_of_len (pos (length p))) p p
unfolding payload_of_len
payload-Reads p = bytes-Reads p

pub encode-Reads : (e : RawEvent) → IsEvent e → Reads decode (encode e) e
unfolding decode encode
encode-Reads e h = Reads-bind _ (int64_be-Reads e.t_micro h.t_fits) (
    Reads-bind _ (player-Reads e.player_id h.player_is_hash) (
      Reads-bind _ (var_int-Reads e.session_seq h.seq_fits) (
        Reads-bind _ (var_int-Reads e.dimension_id h.dimension_fits) (
          Reads-bind _ (var_int-Reads e.coarse_chunk_x h.chunk_x_fits) (
            Reads-bind _ (var_int-Reads e.coarse_chunk_z h.chunk_z_fits) (
              Reads-bind _ (string-Reads e.region_id h.region_fits) (
                Reads-bind _ (var_int-Reads e.kind h.kind_fits) (
                  Reads-bind _ (len_i32-Reads e.payload h.payload_fits)
                    (Reads-last _ (payload-Reads e.payload) Reads-pure)))))))))

-- An event that fits its fields is decoded to itself from the bytes of its encoding.
pub decode_event-encode : (e : RawEvent) → IsEvent e → decode_event (encode e) ≡ ok e
unfolding decode_event
decode_event-encode e h = run-Reads (encode-Reads e h)

-- The fields of an event other than its two byte strings take at most 75 bytes.
pub length-encode_le :
    (e : RawEvent)
    → length e.player_id ≡ 32
    → length (encode e) ≤ 75 + length e.region_id + length e.payload
unfolding encode put_string put_int64_be
length-encode_le e h = simp length-append (
    omega (
      arith,
      h,
      length-be 8 (u64 e.t_micro),
      length-put_var_int e.session_seq,
      length-put_var_int e.dimension_id,
      length-put_var_int e.coarse_chunk_x,
      length-put_var_int e.coarse_chunk_z,
      length-put_var_int (len_i32 e.region_id),
      length-put_var_int e.kind,
      length-put_var_int (len_i32 e.payload),
    ))
