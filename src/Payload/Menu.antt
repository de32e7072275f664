-- ===== src/Payload/Menu.antt =====
-- go/internal/rawevent/rawevent.go: the payloads of clicks in a menu.
use mcbenchmark.Prelude.{List, ◌++◌, ◌≡◌}
use mcbenchmark.Prelude.Int.{ℤ}
use mcbenchmark.Prelude.Word.{IsI32}
use mcbenchmark.Wire.Reading.{
  Result, ok, Reader, pure, run, ◌>>=◌, Reads-bind, Reads-last, Reads-pure, run-Reads,
}
use mcbenchmark.Wire.VarInt.{put_var_int, var_int}
use mcbenchmark.Wire.VarInt.RoundTrip.{var_int-Reads}
use mcbenchmark.Prelude.{ℕ}

-- `CreativeSetPayload`
pub record CreativeSetPayload : Type 0 where
  pub slot : ℤ
  pub item_id : ℤ
  pub count : ℤ

unfoldable pub encode_creative_set : CreativeSetPayload → List ℕ
encode_creative_set d = put_var_int d.slot ++ (put_var_int d.item_id ++ (put_var_int d.count))

unfoldable pub read_creative_set : Reader CreativeSetPayload
read_creative_set = do
  slot ← var_int
  item_id ← var_int
  count ← var_int
  pure (record { slot = slot; item_id = item_id; count = count })

unfoldable pub decode_creative_set : List ℕ → Result CreativeSetPayload
decode_creative_set p = run read_creative_set p

pub record IsCreativeSetPayload (d : CreativeSetPayload) : Type 0 where
  pub slot_fits : IsI32 d.slot
  pub item_id_fits : IsI32 d.item_id
  pub count_fits : IsI32 d.count

pub decode_creative_set-encode_creative_set :
    (d : CreativeSetPayload)
    → IsCreativeSetPayload d
    → decode_creative_set (encode_creative_set d) ≡ ok d
unfolding decode_creative_set read_creative_set encode_creative_set
decode_creative_set-encode_creative_set d h = run-Reads (
    Reads-bind _ (var_int-Reads d.slot h.slot_fits) (
      Reads-bind _ (var_int-Reads d.item_id h.item_id_fits)
        (Reads-last _ (var_int-Reads d.count h.count_fits) Reads-pure)))

-- `InvClickPayload`
pub record InvClickPayload : Type 0 where
  pub window_id : ℤ
  pub slot : ℤ
  pub button : ℤ
  pub click_type : ℤ

unfoldable pub encode_inv_click : InvClickPayload → List ℕ
encode_inv_click d =
    put_var_int d.window_id
    ++ (put_var_int d.slot ++ (put_var_int d.button ++ (put_var_int d.click_type)))

unfoldable pub read_inv_click : Reader InvClickPayload
read_inv_click = do
  window_id ← var_int
  slot ← var_int
  button ← var_int
  click_type ← var_int
  pure (record { window_id = window_id; slot = slot; button = button; click_type = click_type })

unfoldable pub decode_inv_click : List ℕ → Result InvClickPayload
decode_inv_click p = run read_inv_click p

pub record IsInvClickPayload (d : InvClickPayload) : Type 0 where
  pub window_id_fits : IsI32 d.window_id
  pub slot_fits : IsI32 d.slot
  pub button_fits : IsI32 d.button
  pub click_type_fits : IsI32 d.click_type

-- An inventory click whose fields fit an int32 is decoded to itself.
pub decode_inv_click-encode_inv_click :
    (d : InvClickPayload) → IsInvClickPayload d → decode_inv_click (encode_inv_click d) ≡ ok d
unfolding decode_inv_click read_inv_click encode_inv_click
decode_inv_click-encode_inv_click d h = run-Reads (
    Reads-bind _ (var_int-Reads d.window_id h.window_id_fits) (
      Reads-bind _ (var_int-Reads d.slot h.slot_fits) (
        Reads-bind _ (var_int-Reads d.button h.button_fits)
          (Reads-last _ (var_int-Reads d.click_type h.click_type_fits) Reads-pure))))
