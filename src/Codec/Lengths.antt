-- ===== src/Codec/Lengths.antt =====
-- What `ReadPacket` does with the lengths that a packet claims.
use mcbenchmark.Prelude.{
  ℕ, zero, suc, ◌^◌, ◌≤◌, ◌<◌, ◌≡◌, inl, inr, List, ◌++◌, some, refl, ◌∙◌, ltb, ltb→le, Bool-cases,
  arith,
}
use mcbenchmark.Prelude.Int.{ℤ, pos, negsuc}
use mcbenchmark.Prelude.Word.{IsI32}
use mcbenchmark.Wire.Reading.{fail, err, bad_packet_length, panics, >>=-ok, >>=-err}
use mcbenchmark.Wire.VarInt.{put_var_int, var_int}
use mcbenchmark.Wire.VarInt.RoundTrip.{var_int-Reads}
use mcbenchmark.Compression.{Compression}
use mcbenchmark.Codec.RoundTrip.{payload_of-counted}
use mcbenchmark.Codec.{max_packet_len, frame_of_len, inflate, payload_of, read_packet}

abbrev pub IsPacketLen : ℤ → Type 0
IsPacketLen (pos n) = (1 ≤ n) × (n ≤ max_packet_len)
IsPacketLen (negsuc n) = 1 ≤ 0

frame_of_len-eq-err :
    (len : ℤ) (bs : List ℕ)
    → (IsPacketLen len → 1 ≤ 0)
    → frame_of_len len bs ≡ err bad_packet_length
unfolding frame_of_len
frame_of_len-eq-err (negsuc n) bs h = unfold fail in refl
frame_of_len-eq-err (pos zero) bs h = unfold fail in refl
frame_of_len-eq-err (pos (suc n)) bs h = elim (Bool-cases (ltb max_packet_len (suc n))) [
  | inl large ↦ rw large
  | inr fits ↦ absurd (omega (arith, h (omega arith, ltb→le max_packet_len (suc n) fits)))
]

module _ (zlib : Compression) (threshold : ℤ) where
  -- A packet whose length is not from 1 to `MaxPacketLen` is refused, whatever follows it: nothing is
  -- allocated for it.
  pub read_packet_bad_len :
      (len : ℤ) (rest : List ℕ)
      → IsI32 len
      → (IsPacketLen len → 1 ≤ 0)
      → read_packet zlib threshold (put_var_int len ++ rest) ≡ err bad_packet_length
  unfolding read_packet
  read_packet_bad_len len rest h k =
      >>=-ok var_int _ ((var_int-Reads len h).reads rest)
      ∙ >>=-err (frame_of_len len) _ (frame_of_len-eq-err len rest k)

-- With compression on, a frame whose data length is negative and whose stream zlib accepts makes the
-- reader panic: the code refuses only a data length above the maximum.
pub payload_of_negative :
    (zlib : Compression) (threshold n : ℕ) (rest out : List ℕ)
    → n < 2 ^ 31
    → zlib.decompress rest ≡ some out
    → payload_of zlib (pos threshold) (put_var_int (negsuc n) ++ rest) ≡ err panics
unfolding inflate
payload_of_negative zlib threshold n rest out h k =
    payload_of-counted zlib threshold _ rest (negsuc n) ((var_int-Reads (negsuc n) h).reads rest)
    ∙ rw (k, inflate)
