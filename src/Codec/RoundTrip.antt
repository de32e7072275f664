-- ===== src/Codec/RoundTrip.antt =====
-- A packet that was written is read back, whatever the compression threshold.
use mcbenchmark.Prelude.{
  ℕ, zero, suc, ◌^◌, ◌≤◌, ◌<◌, ◌≡◌, refl, ap, ◌∙◌, inl, inr, List, [], ◌++◌, append-nil, some,
  length, take, length-append, take-append, drop-append, ltb, le→ltb, Bool-cases, arith,
}
use mcbenchmark.Prelude.Int.{ℤ, pos, negsuc}
use mcbenchmark.Prelude.Word.{i32, IsI32, i32_of_small}
use mcbenchmark.Wire.Reading.{ok, Reads, Reads-bind, Reads-last}
use mcbenchmark.Wire.VarInt.{append_var_int, var_int}
use mcbenchmark.Wire.VarInt.RoundTrip.{append_var_int-eq-append, var_int-Reads, length-put_var_int}
use mcbenchmark.Wire.Fixed.RoundTrip.{count-Reads}
use mcbenchmark.Compression.{Compression}
use mcbenchmark.Codec.{
  max_packet_len, frame_of_len, frame_of, inflate, payload_of, packet_of, read_packet, deflate,
  write_packet,
}

frame_of_len-append :
    (n : ℕ) (frame rest : List ℕ)
    → length frame ≡ n
    → 1 ≤ n
    → n ≤ max_packet_len
    → frame_of_len (pos n) (frame ++ rest) ≡ ok (frame, rest)
unfolding frame_of_len
frame_of_len-append zero frame rest e h k = absurd (omega (arith, h))
frame_of_len-append (suc n) frame rest e h k = rw (
  le→ltb max_packet_len (suc n) k,
  le→ltb (length (frame ++ rest)) (suc n) (omega (arith, e, length-append frame rest)),
  ← e,
  take-append frame rest,
  drop-append frame rest,
)

frame_of_len-Reads :
    (frame : List ℕ)
    → 1 ≤ length frame
    → length frame ≤ max_packet_len
    → Reads (frame_of_len (pos (length frame))) frame frame
frame_of_len-Reads frame h k = record {
  reads = λ rest. frame_of_len-append (length frame) frame rest refl h k;
}

-- The number in front of a packet's content, read from what `AppendVarInt` wrote.
counted :
    (n : ℕ) (rest : List ℕ)
    → n < 2 ^ 31
    → var_int (append_var_int [] (i32 n) ++ rest) ≡ ok (pos n, rest)
counted n rest h =
    ap (λ t. var_int (t ++ rest)) (append_var_int-eq-append [] (i32 n))
    ∙ (count-Reads n h).reads rest

zero_counted : (rest : List ℕ) → var_int (append_var_int [] (pos 0) ++ rest) ≡ ok (pos 0, rest)
zero_counted rest = rw (i32_of_small 0 (omega arith)) at (counted 0 rest (omega arith))

id_read :
    (id : ℤ) (rest : List ℕ) → IsI32 id → var_int (append_var_int [] id ++ rest) ≡ ok (id, rest)
id_read id rest h =
    ap (λ t. var_int (t ++ rest)) (append_var_int-eq-append [] id) ∙ (var_int-Reads id h).reads rest

counted_filled : (v : ℤ) (rest : List ℕ) → 1 ≤ length (append_var_int [] v ++ rest)
counted_filled v rest = omega (
  arith,
  length-append (append_var_int [] v) rest,
  ap length (append_var_int-eq-append [] v),
  length-put_var_int v,
)

take_all : (xs : List ℕ) → take (length xs) xs ≡ xs
take_all xs = rw append-nil at (take-append xs [])

module _ (zlib : Compression) where
  inflate-full :
      (n : ℕ) (inner z : List ℕ)
      → length inner ≡ n
      → 1 ≤ n
      → n ≤ max_packet_len
      → zlib.decompress z ≡ some inner
      → inflate zlib (pos n) z ≡ ok inner
  unfolding inflate
  inflate-full zero inner z d h k e = absurd (omega (arith, h))
  inflate-full (suc n) inner z d h k e = rw (
    le→ltb max_packet_len (suc n) k,
    e,
    le→ltb (length inner) (suc n) (omega (arith, d)),
    ← d,
    take_all inner,
  )

  pub payload_of-counted :
      (n : ℕ) (frame rest : List ℕ) (len : ℤ)
      → var_int frame ≡ ok (len, rest)
      → payload_of zlib (pos n) frame ≡ inflate zlib len rest
  unfolding payload_of
  payload_of-counted n frame rest len h = rw (h, payload_of)

  -- What is written into a frame under a threshold is the payload that is read under it.
  pub payload_of-deflate :
      (threshold : ℤ) (inner : List ℕ)
      → 1 ≤ length inner
      → length inner ≤ max_packet_len
      → (content : List ℕ) × (1 ≤ length content)
        × (deflate zlib threshold inner ≡ ok content)
        × (payload_of zlib threshold content ≡ ok inner)
  unfolding deflate
  payload_of-deflate (negsuc n) inner h k = (inner, h, refl, unfold payload_of in refl)
  payload_of-deflate (pos n) inner h k = elim (Bool-cases (ltb (length inner) n)) [
    | inl small ↦ (
      append_var_int [] (pos 0) ++ inner,
      counted_filled (pos 0) inner,
      rw small,
      payload_of-counted n _ inner (pos 0) (zero_counted inner) ∙ unfold inflate in refl,
    )
    | inr large ↦
        let (z, packed, unpacked) = zlib.inverse inner in
        (
          append_var_int [] (i32 (length inner)) ++ z,
          counted_filled (i32 (length inner)) z,
          rw (large, packed),
          payload_of-counted n _ z (pos (length inner))
                (counted (length inner) z (omega (arith, k)))
              ∙ inflate-full (length inner) inner z refl h k unpacked,
        )
  ]

  packet_of-Reads :
      (threshold id : ℤ) (frame body : List ℕ)
      → IsI32 id
      → payload_of zlib threshold frame ≡ ok (append_var_int [] id ++ body)
      → Reads (packet_of zlib threshold frame) [] (id, body)
  unfolding packet_of
  packet_of-Reads threshold id frame body h e = record {
    reads = λ rest. rw (e, id_read id body h, packet_of);
  }

  -- A packet whose number and body, as one, and whose frame are within `MaxPacketLen` is written
  -- under any threshold, and is read back from the stream under the same one, with what follows left.
  pub read_packet-write_packet :
      (threshold id : ℤ) (body : List ℕ)
      → IsI32 id
      → length (append_var_int [] id ++ body) ≤ max_packet_len
      → ((content : List ℕ)
          → deflate zlib threshold (append_var_int [] id ++ body) ≡ ok content
          → length content ≤ max_packet_len)
      → (sent : List ℕ) × (write_packet zlib threshold id body ≡ ok sent)
        × Reads (read_packet zlib threshold) sent (id, body)
  unfolding write_packet read_packet frame_of
  read_packet-write_packet threshold id body hid h small =
      let (content, filled, written, back) =
        payload_of-deflate threshold (append_var_int [] id ++ body) (counted_filled id body) h in
      (
        frame_of content,
        rw (written, write_packet),
        Reads-bind _
            (record {
              reads = λ rest. counted (length content) rest (omega (arith, small content written));
            })
            (Reads-last _ (frame_of_len-Reads content filled (small content written))
              (packet_of-Reads threshold id content body hid back)),
      )
