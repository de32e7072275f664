-- ===== src/Payload/Text.antt =====
-- go/internal/rawevent/rawevent.go: commands, chat, plain markers and entity references.
use mcbenchmark.Prelude.{
  ℕ, ◌^◌, ◌<◌, ◌≡◌, refl, ◌∙◌, List, [], ◌++◌, length, ltb, if◌then◌else◌, ap, append-nil, lt→ltb,
  arith,
}
use mcbenchmark.Prelude.Int.{ℤ, pos}
use mcbenchmark.Prelude.Word.{IsI32}
use mcbenchmark.Wire.Reading.{
  Result, ok, err, Reader, run, ◌>>=◌, run-Reads, run-bind, run-bind_end,
}
use mcbenchmark.Wire.VarInt.{put_var_int, var_int}
use mcbenchmark.Wire.VarInt.RoundTrip.{var_int-Reads, length-put_var_int}
use mcbenchmark.Wire.Fixed.{put_string, string}
use mcbenchmark.Wire.Fixed.RoundTrip.{string-Reads}

unfoldable pub encode_cmd : List ℕ → List ℕ
encode_cmd cmd = put_string cmd

unfoldable pub decode_cmd : List ℕ → Result (List ℕ)
decode_cmd p = run string p

unfoldable pub encode_chat : List ℕ → List ℕ
encode_chat msg = put_string msg

unfoldable pub decode_chat : List ℕ → Result (List ℕ)
decode_chat p = run string p

unfoldable pub decode_marker : List ℕ → Result (List ℕ)
decode_marker p = run string p

pub decode_cmd-encode_cmd :
    (cmd : List ℕ) → length cmd < 2 ^ 31 → decode_cmd (encode_cmd cmd) ≡ ok cmd
unfolding decode_cmd encode_cmd
decode_cmd-encode_cmd cmd h = run-Reads (string-Reads cmd h)

pub decode_chat-encode_chat :
    (msg : List ℕ) → length msg < 2 ^ 31 → decode_chat (encode_chat msg) ≡ ok msg
unfolding decode_chat encode_chat
decode_chat-encode_chat msg h = run-Reads (string-Reads msg h)

pub record EntityRef : Type 0 where
  pub type_key : List ℕ
  pub hand : ℤ

unfoldable pub encode_entity_ref : EntityRef → List ℕ
encode_entity_ref r = put_string r.type_key ++ put_var_int r.hand

-- `out.Hand, _ = r.VarInt()`: on an error the hand is 0, and the error is dropped.
unfoldable pub read_hand : List ℕ → ℤ
read_hand bs =
    if ltb 0 (length bs) then elim (var_int bs) [ ok (h, rest) ↦ h | err e ↦ pos 0 ] else pos 0

unfoldable pub read_entity_ref : Reader EntityRef
unfolding read_hand
read_entity_ref = do key ← string; λ bs. ok (record { type_key = key; hand = read_hand bs }, [])

unfoldable pub decode_entity_ref : List ℕ → Result EntityRef
decode_entity_ref p = run read_entity_ref p

read_hand-put_var_int : (v : ℤ) → IsI32 v → read_hand (put_var_int v) ≡ v
unfolding read_hand
read_hand-put_var_int v h =
    rw (lt→ltb 0 (length (put_var_int v)) (omega (arith, length-put_var_int v)), whole)
  where
    whole : var_int (put_var_int v) ≡ ok (v, [])
    whole = rw append-nil at ((var_int-Reads v h).reads [])

-- An entity reference whose fields fit is decoded to itself.
pub decode_entity_ref-encode_entity_ref :
    (r : EntityRef)
    → length r.type_key < 2 ^ 31
    → IsI32 r.hand
    → decode_entity_ref (encode_entity_ref r) ≡ ok r
unfolding decode_entity_ref read_entity_ref encode_entity_ref run
decode_entity_ref-encode_entity_ref r h k =
    run-bind _ (put_var_int r.hand) (string-Reads r.type_key h)
    ∙ ap (λ v. ok (record { type_key = r.type_key; hand = v })) (read_hand-put_var_int r.hand k)

-- An attack of an older capture, which has no hand, is read with hand 0.
pub decode_entity_ref-put_string :
    (key : List ℕ)
    → length key < 2 ^ 31
    → decode_entity_ref (put_string key) ≡ ok (record { type_key = key; hand = pos 0 })
unfolding decode_entity_ref read_entity_ref
decode_entity_ref-put_string key h =
    run-bind_end _ (string-Reads key h) ∙ unfold run read_hand in refl
