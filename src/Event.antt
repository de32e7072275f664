-- ===== src/Event.antt =====
-- go/internal/rawevent/rawevent.go: `RawEvent`, its encoding and its decoding.
pub mod Kind
pub mod RoundTrip
use mcbenchmark.Prelude.{ℕ, List, ◌++◌, length}
use mcbenchmark.Prelude.Int.{ℤ, pos, negsuc}
use mcbenchmark.Wire.Reading.{Result, Reader, pure, fail, run, negative_length, ◌>>=◌}
use mcbenchmark.Wire.Bytes.{bytes}
use mcbenchmark.Wire.VarInt.{put_var_int, var_int}
use mcbenchmark.Wire.Fixed.{put_int64_be, put_string, int64_be, string, len_i32}

pub record RawEvent : Type 0 where
  pub t_micro : ℤ
  pub player_id : List ℕ
  pub session_seq : ℤ
  pub dimension_id : ℤ
  pub coarse_chunk_x : ℤ
  pub coarse_chunk_z : ℤ
  pub region_id : List ℕ
  pub kind : ℤ
  pub payload : List ℕ

unfoldable pub encode : RawEvent → List ℕ
encode e =
    put_int64_be e.t_micro
    ++ (e.player_id
        ++ (put_var_int e.session_seq
            ++ (put_var_int e.dimension_id
                ++ (put_var_int e.coarse_chunk_x
                    ++ (put_var_int e.coarse_chunk_z
                        ++ (put_string e.region_id
                            ++ (put_var_int e.kind
                                ++ (put_var_int (len_i32 e.payload) ++ e.payload))))))))

-- `if plen < 0 { return error }; p, err := r.Bytes(int(plen))`
unfoldable pub payload_of_len : ℤ → Reader (List ℕ)
payload_of_len (negsuc n) = fail negative_length
payload_of_len (pos n) = bytes (pos n)

unfoldable pub decode : Reader RawEvent
decode = do
  t ← int64_be
  id ← bytes (pos 32)
  seq ← var_int
  dim ← var_int
  cx ← var_int
  cz ← var_int
  region ← string
  k ← var_int
  n ← var_int
  p ← payload_of_len n
  pure (record {
    t_micro = t;
    player_id = id;
    session_seq = seq;
    dimension_id = dim;
    coarse_chunk_x = cx;
    coarse_chunk_z = cz;
    region_id = region;
    kind = k;
    payload = p;
  })

-- `rawevent.Decode(mcwire.NewReader(b))`
unfoldable pub decode_event : List ℕ → Result RawEvent
decode_event b = run decode b
