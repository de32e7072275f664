-- ===== src/Payload/Position.antt =====
-- go/internal/rawevent/rawevent.go: movement, re-anchors, and markers with their optional position.
use mcbenchmark.Prelude.{
  ℕ, suc, ◌^◌, ◌<◌, ◌≡◌, refl, ◌∙◌, List, [], ◌∷◌, ◌++◌, Bool, false, Option, none, some, length,
  ◌==◌, if◌then◌else◌, arith,
}
use mcbenchmark.Prelude.Int.{ℤ}
use mcbenchmark.Prelude.Word.{IsI32, IsU32, IsU64}
use mcbenchmark.Wire.Reading.{
  Result, ok, Reader, pure, run, ◌>>=◌, ◌>>◌, Reads, Reads-bind, Reads-last, Reads-pure, run-Reads,
  run-bind, run-ok, >>=-ok, run-bind_end,
}
use mcbenchmark.Wire.Bytes.{need, bytes, bool, put_bool, bool-Reads}
use mcbenchmark.Wire.VarInt.{put_var_int, var_int}
use mcbenchmark.Wire.VarInt.RoundTrip.{var_int-Reads}
use mcbenchmark.Wire.Fixed.{
  put_string, put_float32_be, put_float64_be, put_float32_le, string, float32_be, float64_be,
  float32_le,
}
use mcbenchmark.Wire.Fixed.RoundTrip.{
  string-Reads, float32_be-Reads, float64_be-Reads, float32_le-Reads,
}

-- `MovePayload`, floats as bit patterns
pub record MovePayload : Type 0 where
  pub dx : ℕ
  pub dy : ℕ
  pub dz : ℕ
  pub yaw : ℕ
  pub pitch : ℕ
  pub on_ground : Bool

unfoldable pub encode_move : MovePayload → List ℕ
encode_move m =
    put_float32_le m.dx
    ++ (put_float32_le m.dy
        ++ (put_float32_le m.dz
            ++ (put_float32_le m.yaw ++ (put_float32_le m.pitch ++ put_bool m.on_ground))))

unfoldable pub read_move : Reader MovePayload
read_move = do
  dx ← float32_le
  dy ← float32_le
  dz ← float32_le
  yaw ← float32_le
  pitch ← float32_le
  on_ground ← bool
  pure (record { dx = dx; dy = dy; dz = dz; yaw = yaw; pitch = pitch; on_ground = on_ground })

unfoldable pub decode_move : List ℕ → Result MovePayload
decode_move p = run read_move p

pub record IsMove (m : MovePayload) : Type 0 where
  pub dx_fits : IsU32 m.dx
  pub dy_fits : IsU32 m.dy
  pub dz_fits : IsU32 m.dz
  pub yaw_fits : IsU32 m.yaw
  pub pitch_fits : IsU32 m.pitch

-- A movement with 32-bit floats is decoded to itself, bit for bit.
pub decode_move-encode_move : (m : MovePayload) → IsMove m → decode_move (encode_move m) ≡ ok m
unfolding decode_move read_move encode_move
decode_move-encode_move m h = run-Reads (
    Reads-bind _ (float32_le-Reads m.dx h.dx_fits) (
      Reads-bind _ (float32_le-Reads m.dy h.dy_fits) (
        Reads-bind _ (float32_le-Reads m.dz h.dz_fits) (
          Reads-bind _ (float32_le-Reads m.yaw h.yaw_fits) (
            Reads-bind _ (float32_le-Reads m.pitch h.pitch_fits)
              (Reads-last _ (bool-Reads m.on_ground) Reads-pure))))))

-- The position and the look that re-anchors, markers and trace origins share.
pub record Place : Type 0 where
  pub x : ℕ
  pub y : ℕ
  pub z : ℕ
  pub yaw : ℕ
  pub pitch : ℕ

unfoldable pub put_place : Place → List ℕ
put_place p =
    put_float64_be p.x
    ++ (put_float64_be p.y
        ++ (put_float64_be p.z ++ (put_float32_be p.yaw ++ put_float32_be p.pitch)))

unfoldable pub read_place : Reader Place
read_place = do
  x ← float64_be
  y ← float64_be
  z ← float64_be
  yaw ← float32_be
  pitch ← float32_be
  pure (record { x = x; y = y; z = z; yaw = yaw; pitch = pitch })

pub record IsPlaceBits (p : Place) : Type 0 where
  pub x_fits : IsU64 p.x
  pub y_fits : IsU64 p.y
  pub z_fits : IsU64 p.z
  pub yaw_fits : IsU32 p.yaw
  pub pitch_fits : IsU32 p.pitch

pub place-Reads : (p : Place) → IsPlaceBits p → Reads read_place (put_place p) p
unfolding read_place put_place
place-Reads p h = Reads-bind _ (float64_be-Reads p.x h.x_fits) (
    Reads-bind _ (float64_be-Reads p.y h.y_fits) (
      Reads-bind _ (float64_be-Reads p.z h.z_fits) (
        Reads-bind _ (float32_be-Reads p.yaw h.yaw_fits)
          (Reads-last _ (float32_be-Reads p.pitch h.pitch_fits) Reads-pure))))

pub record ReanchorPayload : Type 0 where
  pub place : Place
  pub open place use *
  pub dimension : ℤ

unfoldable pub encode_reanchor : ReanchorPayload → List ℕ
encode_reanchor d = put_place d.place ++ put_var_int d.dimension

unfoldable pub read_reanchor : Reader ReanchorPayload
read_reanchor = do
  p ← read_place
  dimension ← var_int
  pure (record { place = p; dimension = dimension })

unfoldable pub decode_reanchor : List ℕ → Result ReanchorPayload
decode_reanchor p = run read_reanchor p

-- A re-anchor whose fields fit is decoded to itself, its floats bit for bit.
pub decode_reanchor-encode_reanchor :
    (d : ReanchorPayload)
    → IsPlaceBits d.place
    → IsI32 d.dimension
    → decode_reanchor (encode_reanchor d) ≡ ok d
unfolding decode_reanchor read_reanchor encode_reanchor
decode_reanchor-encode_reanchor d h k =
    run-Reads
      (Reads-bind _ (place-Reads d.place h) (Reads-last _ (var_int-Reads d.dimension k) Reads-pure))

-- `MarkerPayload`: `HasPos` with the position is an option here.
pub record MarkerPayload : Type 0 where
  pub marker : List ℕ
  pub position : Option Place

unfoldable pub encode_marker_at : List ℕ → Place → List ℕ
encode_marker_at marker p = put_string marker ++ put_place p

-- Behind the marker: `if r.Remaining() == 0 { return m, nil }`, else the position.
unfoldable pub read_marker_pos : List ℕ → Reader MarkerPayload
read_marker_pos marker bs =
    if length bs == 0
    then pure (record { marker = marker; position = none }) bs
    else (do p ← read_place; pure (record { marker = marker; position = some p })) bs

unfoldable pub read_marker_at : Reader MarkerPayload
read_marker_at = do marker ← string; read_marker_pos marker

unfoldable pub decode_marker_at : List ℕ → Result MarkerPayload
decode_marker_at p = run read_marker_at p

abbrev with_position : List ℕ → Reader MarkerPayload
with_position marker = read_place >>= λ p. pure (record { marker = marker; position = some p })

marker_pos_step :
    (marker : List ℕ) (b : ℕ) (bs : List ℕ)
    → read_marker_pos marker (b ∷ bs) ≡ with_position marker (b ∷ bs)
unfolding read_marker_pos
marker_pos_step marker b bs = rw (nonempty (length bs))
  where
    nonempty : (n : ℕ) → (suc n == 0) ≡ false
    nonempty n = ground arith

marker_pos-full :
    (marker bs : List ℕ) (p : Place)
    → run read_place bs ≡ ok p
    → run (read_marker_pos marker) bs ≡ ok (record { marker = marker; position = some p })
unfolding run
marker_pos-full marker [] p h = unfold read_place float64_be bytes need ◌>>=◌ ◌>>◌ in cc
marker_pos-full marker (b ∷ bs) p h =
    let (rest, e) = run-ok read_place (b ∷ bs) h in
    rw (marker_pos_step marker b bs, >>=-ok read_place _ e, run) (unfold pure in refl)

-- A marker that was written with a position is read back with that position.
pub decode_marker_at-encode_marker_at :
    (marker : List ℕ) (p : Place)
    → length marker < 2 ^ 31
    → IsPlaceBits p
    → decode_marker_at (encode_marker_at marker p)
      ≡ ok (record { marker = marker; position = some p })
unfolding decode_marker_at read_marker_at encode_marker_at
decode_marker_at-encode_marker_at marker p h k =
    run-bind _ (put_place p) (string-Reads marker h)
    ∙ marker_pos-full marker (put_place p) p (run-Reads (place-Reads p k))

-- A marker of an older capture, its name with nothing behind it, is read without a position.
pub decode_marker_at-put_string :
    (marker : List ℕ)
    → length marker < 2 ^ 31
    → decode_marker_at (put_string marker) ≡ ok (record { marker = marker; position = none })
unfolding decode_marker_at read_marker_at
decode_marker_at-put_string marker h =
    run-bind_end _ (string-Reads marker h) ∙ unfold run read_marker_pos pure in refl
