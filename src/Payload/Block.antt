-- ===== src/Payload/Block.antt =====
-- go/internal/rawevent/rawevent.go: the payloads about blocks and clicks, each a row of VarInts.
use mcbenchmark.Prelude.{List, ◌++◌, ◌≡◌}
use mcbenchmark.Prelude.Int.{ℤ}
use mcbenchmark.Prelude.Word.{IsI32}
use mcbenchmark.Wire.Reading.{
  Result, ok, Reader, pure, run, ◌>>=◌, Reads-bind, Reads-last, Reads-pure, run-Reads,
}
use mcbenchmark.Wire.VarInt.{put_var_int, var_int}
use mcbenchmark.Wire.VarInt.RoundTrip.{var_int-Reads}
use mcbenchmark.Prelude.{ℕ}

-- `DigPayload`: action 0 starts, 1 cancels, 2 finishes
pub record DigPayload : Type 0 where
  pub action : ℤ
  pub x : ℤ
  pub y : ℤ
  pub z : ℤ
  pub face : ℤ

unfoldable pub encode_dig : DigPayload → List ℕ
encode_dig d =
    put_var_int d.action
    ++ (put_var_int d.x ++ (put_var_int d.y ++ (put_var_int d.z ++ (put_var_int d.face))))

unfoldable pub read_dig : Reader DigPayload
read_dig = do
  action ← var_int
  x ← var_int
  y ← var_int
  z ← var_int
  face ← var_int
  pure (record { action = action; x = x; y = y; z = z; face = face })

unfoldable pub decode_dig : List ℕ → Result DigPayload
decode_dig p = run read_dig p

pub record IsDigPayload (d : DigPayload) : Type 0 where
  pub action_fits : IsI32 d.action
  pub x_fits : IsI32 d.x
  pub y_fits : IsI32 d.y
  pub z_fits : IsI32 d.z
  pub face_fits : IsI32 d.face

-- A dig whose fields fit an int32 is decoded to itself.
pub decode_dig-encode_dig : (d : DigPayload) → IsDigPayload d → decode_dig (encode_dig d) ≡ ok d
unfolding decode_dig read_dig encode_dig
decode_dig-encode_dig d h = run-Reads (
    Reads-bind _ (var_int-Reads d.action h.action_fits) (
      Reads-bind _ (var_int-Reads d.x h.x_fits) (
        Reads-bind _ (var_int-Reads d.y h.y_fits) (
          Reads-bind _ (var_int-Reads d.z h.z_fits)
            (Reads-last _ (var_int-Reads d.face h.face_fits) Reads-pure)))))

-- `PlacePayload`
pub record PlacePayload : Type 0 where
  pub x : ℤ
  pub y : ℤ
  pub z : ℤ
  pub face : ℤ
  pub hand : ℤ

unfoldable pub encode_place : PlacePayload → List ℕ
encode_place d =
    put_var_int d.x
    ++ (put_var_int d.y ++ (put_var_int d.z ++ (put_var_int d.face ++ (put_var_int d.hand))))

unfoldable pub read_place : Reader PlacePayload
read_place = do
  x ← var_int
  y ← var_int
  z ← var_int
  face ← var_int
  hand ← var_int
  pure (record { x = x; y = y; z = z; face = face; hand = hand })

unfoldable pub decode_place : List ℕ → Result PlacePayload
decode_place p = run read_place p

pub record IsPlacePayload (d : PlacePayload) : Type 0 where
  pub x_fits : IsI32 d.x
  pub y_fits : IsI32 d.y
  pub z_fits : IsI32 d.z
  pub face_fits : IsI32 d.face
  pub hand_fits : IsI32 d.hand

-- A placed block whose fields fit an int32 is decoded to itself.
pub decode_place-encode_place :
    (d : PlacePayload) → IsPlacePayload d → decode_place (encode_place d) ≡ ok d
unfolding decode_place read_place encode_place
decode_place-encode_place d h = run-Reads (
    Reads-bind _ (var_int-Reads d.x h.x_fits) (
      Reads-bind _ (var_int-Reads d.y h.y_fits) (
        Reads-bind _ (var_int-Reads d.z h.z_fits) (
          Reads-bind _ (var_int-Reads d.face h.face_fits)
            (Reads-last _ (var_int-Reads d.hand h.hand_fits) Reads-pure)))))

-- `UseItemPayload`
pub record UseItemPayload : Type 0 where
  pub hand : ℤ
  pub item_id : ℤ

unfoldable pub encode_use_item : UseItemPayload → List ℕ
encode_use_item d = put_var_int d.hand ++ (put_var_int d.item_id)

unfoldable pub read_use_item : Reader UseItemPayload
read_use_item = do
  hand ← var_int
  item_id ← var_int
  pure (record { hand = hand; item_id = item_id })

unfoldable pub decode_use_item : List ℕ → Result UseItemPayload
decode_use_item p = run read_use_item p

pub record IsUseItemPayload (d : UseItemPayload) : Type 0 where
  pub hand_fits : IsI32 d.hand
  pub item_id_fits : IsI32 d.item_id

-- A used item whose fields fit an int32 is decoded to itself.
pub decode_use_item-encode_use_item :
    (d : UseItemPayload) → IsUseItemPayload d → decode_use_item (encode_use_item d) ≡ ok d
unfolding decode_use_item read_use_item encode_use_item
decode_use_item-encode_use_item d h = run-Reads (
    Reads-bind _ (var_int-Reads d.hand h.hand_fits)
      (Reads-last _ (var_int-Reads d.item_id h.item_id_fits) Reads-pure))
