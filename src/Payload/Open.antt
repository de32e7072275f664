-- ===== src/Payload/Open.antt =====
-- go/internal/rawevent/rawevent.go: `InvOpenPayload`, whose position is optional, and the payloads
-- of one number or one flag.
use mcbenchmark.Prelude.{ℕ, ◌≡◌, refl, List, [], ◌∷◌, ◌++◌, Bool, true, false, if◌then◌else◌}
use mcbenchmark.Prelude.Int.{ℤ, pos}
use mcbenchmark.Prelude.Word.{IsI32}
use mcbenchmark.Wire.Reading.{
  Result, ok, Reader, pure, run, ◌>>=◌, Reads, Reads-bind, Reads-last, Reads-pure, run-Reads,
}
use mcbenchmark.Wire.Bytes.{bool, put_bool, bool-Reads}
use mcbenchmark.Wire.VarInt.{put_var_int, var_int}
use mcbenchmark.Wire.VarInt.RoundTrip.{var_int-Reads}

-- `InvOpenPayload`: the coordinates are 0 where `has_pos` is false.
pub record InvOpenPayload : Type 0 where
  pub container_type : ℤ
  pub has_pos : Bool
  pub x : ℤ
  pub y : ℤ
  pub z : ℤ

unfoldable pub encode_inv_open : InvOpenPayload → List ℕ
encode_inv_open d =
    put_var_int d.container_type
    ++ (put_bool d.has_pos
        ++ (if d.has_pos then put_var_int d.x ++ (put_var_int d.y ++ put_var_int d.z) else []))

-- What `DecodeInvOpen` reads behind the flag.
unfoldable pub read_open_pos : ℤ → Bool → Reader InvOpenPayload
read_open_pos t true = do
  x ← var_int
  y ← var_int
  z ← var_int
  pure (record { container_type = t; has_pos = true; x = x; y = y; z = z })
read_open_pos t false =
    pure (record { container_type = t; has_pos = false; x = pos 0; y = pos 0; z = pos 0 })

unfoldable pub read_inv_open : Reader InvOpenPayload
read_inv_open = do t ← var_int; has ← bool; read_open_pos t has

unfoldable pub decode_inv_open : List ℕ → Result InvOpenPayload
decode_inv_open p = run read_inv_open p

-- Every field fits its width, and an absent position is left at 0.
pub record IsInvOpen (d : InvOpenPayload) : Type 0 where
  pub type_fits : IsI32 d.container_type
  pub x_fits : IsI32 d.x
  pub y_fits : IsI32 d.y
  pub z_fits : IsI32 d.z
  pub absent : d.has_pos ≡ false → (d.x ≡ pos 0) × (d.y ≡ pos 0) × (d.z ≡ pos 0)

open_pos-Reads :
    (t : ℤ) (has : Bool) (x y z : ℤ)
    → IsI32 x
    → IsI32 y
    → IsI32 z
    → (has ≡ false → (x ≡ pos 0) × (y ≡ pos 0) × (z ≡ pos 0))
    → Reads
        (read_open_pos t has)
        (if has then put_var_int x ++ (put_var_int y ++ put_var_int z) else [])
        (record { container_type = t; has_pos = has; x = x; y = y; z = z })
unfolding read_open_pos
open_pos-Reads t true x y z hx hy hz h =
    Reads-bind _ (var_int-Reads x hx)
      (Reads-bind _ (var_int-Reads y hy) (Reads-last _ (var_int-Reads z hz) Reads-pure))
open_pos-Reads t false x y z hx hy hz h = let (ex, ey, ez) = h refl in rw (ex, ey, ez) Reads-pure

-- An opened container is decoded to itself, with a block position or without one; without one the
-- coordinates are 0.
pub decode_inv_open-encode_inv_open :
    (d : InvOpenPayload) → IsInvOpen d → decode_inv_open (encode_inv_open d) ≡ ok d
unfolding decode_inv_open read_inv_open encode_inv_open
decode_inv_open-encode_inv_open d h = run-Reads (
    Reads-bind _ (var_int-Reads d.container_type h.type_fits) (
      Reads-bind _ (bool-Reads d.has_pos) (
        open_pos-Reads d.container_type d.has_pos d.x d.y d.z h.x_fits h.y_fits h.z_fits h.absent)))

-- `EncodeToggle` and `EncodeDropItem` have one body, and so have their decoders.
unfoldable pub encode_toggle : Bool → List ℕ
encode_toggle on = if on then 1 ∷ [] else 0 ∷ []

unfoldable pub decode_toggle : List ℕ → Result Bool
decode_toggle p = run bool p

unfoldable pub encode_drop_item : Bool → List ℕ
encode_drop_item full_stack = if full_stack then 1 ∷ [] else 0 ∷ []

unfoldable pub decode_drop_item : List ℕ → Result Bool
decode_drop_item p = run bool p

unfoldable pub encode_held_slot : ℤ → List ℕ
encode_held_slot slot = put_var_int slot

unfoldable pub decode_held_slot : List ℕ → Result ℤ
decode_held_slot p = run var_int p

flag-Reads : (on : Bool) → Reads bool (if on then 1 ∷ [] else 0 ∷ []) on
unfolding put_bool
flag-Reads true = bool-Reads true
flag-Reads false = bool-Reads false

pub decode_toggle-encode_toggle : (on : Bool) → decode_toggle (encode_toggle on) ≡ ok on
unfolding decode_toggle encode_toggle
decode_toggle-encode_toggle on = run-Reads (flag-Reads on)

pub decode_drop_item-encode_drop_item :
    (full : Bool) → decode_drop_item (encode_drop_item full) ≡ ok full
unfolding decode_drop_item encode_drop_item
decode_drop_item-encode_drop_item full = run-Reads (flag-Reads full)

pub decode_held_slot-encode_held_slot :
    (slot : ℤ) → IsI32 slot → decode_held_slot (encode_held_slot slot) ≡ ok slot
unfolding decode_held_slot encode_held_slot
decode_held_slot-encode_held_slot slot h = run-Reads (var_int-Reads slot h)
