-- ===== src/Amplify.antt =====
-- go/internal/amplify/amplify.go: `RNG`, `Trace` and `transformPayload`. The generator is its state, a
-- uint64, and a function that draws from it returns the state behind.
pub mod Numbers
pub mod Schedule
pub mod Commands
use Prim.Native.Nat.{bit_xor}
use mcbenchmark.Prelude.{
  ℕ, zero, suc, ◌+◌, ◌*◌, ◌/◌, ◌%◌, ◌^◌, List, [], ◌∷◌, Option, none, Bool, true, false, not, ◌||◌,
  if◌then◌else◌,
}
use mcbenchmark.Prelude.Int.{ℤ, pos, negsuc, ltb_ℤ, ◌==ℤ◌}
use mcbenchmark.Prelude.Sort.{sort_by}
use mcbenchmark.Prelude.Word.{i32, i64, u32, add_i32, add_i64, sub_i64}
use mcbenchmark.Wire.Reading.{ok, err}
use mcbenchmark.Event.Kind
use mcbenchmark.Payload.Block.{
  DigPayload, PlacePayload, encode_dig, decode_dig, encode_place, decode_place,
}
use mcbenchmark.Payload.Open.{InvOpenPayload, encode_inv_open, decode_inv_open}
use mcbenchmark.Payload.Text.{encode_cmd, decode_cmd}
use mcbenchmark.Trace.Model.{Trace, TraceEvent, latest_schema}
use mcbenchmark.Amplify.Numbers.{Drawn, span, upto, vary_numbers}

pub record Options : Type 0 where
  pub start_jitter_us : ℤ
  pub event_jitter_us : ℤ
  pub space_spread : ℤ
  pub vary_percent : ℤ

abbrev move_dig : ℤ → ℤ → DigPayload → DigPayload
move_dig dx dz d = record {
  action = d.action;
  x = add_i32 d.x dx;
  y = d.y;
  z = add_i32 d.z dz;
  face = d.face;
}

abbrev move_place : ℤ → ℤ → PlacePayload → PlacePayload
move_place dx dz p = record {
  x = add_i32 p.x dx;
  y = p.y;
  z = add_i32 p.z dz;
  face = p.face;
  hand = p.hand;
}

abbrev move_open : ℤ → ℤ → InvOpenPayload → InvOpenPayload
move_open dx dz o = record {
  container_type = o.container_type;
  has_pos = o.has_pos;
  x = add_i32 o.x dx;
  y = o.y;
  z = add_i32 o.z dz;
}

unfoldable pub vary_cmd : List ℕ → ℤ → ℕ → Drawn (List ℕ)
vary_cmd content percent rng =
    if ltb_ℤ (pos 0) percent
    then elim (decode_cmd content) [
      | ok cmd ↦ (let (varied, rest) = vary_numbers cmd percent rng in (encode_cmd varied, rest))
      | err x ↦ (content, rng)
    ]
    else (content, rng)

-- The payload, and the generator: only the numbers of a command draw from it.
unfoldable pub transform_payload : ℤ → List ℕ → ℤ → ℤ → Options → ℕ → Drawn (List ℕ)
unfolding vary_cmd
transform_payload kind content dx dz o rng =
    if kind ==ℤ Kind.dig
    then elim (decode_dig content) [
      | ok d ↦ (encode_dig (move_dig dx dz d), rng)
      | err x ↦ (content, rng)
    ]
    else if kind ==ℤ Kind.place_block
    then elim (decode_place content) [
      | ok p ↦ (encode_place (move_place dx dz p), rng)
      | err x ↦ (content, rng)
    ]
    else if kind ==ℤ Kind.inv_open
    then elim (decode_inv_open content) [
      | ok p ↦ if p.has_pos then (encode_inv_open (move_open dx dz p), rng) else (content, rng)
      | err x ↦ (content, rng)
    ]
    else if kind ==ℤ Kind.cmd
    then vary_cmd content o.vary_percent rng
    else (content, rng)

-- `if off < 0 { off = 0 }`
unfoldable pub not_negative : ℤ → ℤ
not_negative off = if ltb_ℤ off (pos 0) then pos 0 else off

-- One event of the copy: its offset is drawn before its payload.
unfoldable pub amplify_event : ℤ → ℤ → ℤ → Options → TraceEvent → ℕ → Drawn TraceEvent
unfolding transform_payload not_negative
amplify_event delay dx dz o e rng =
    let (jitter, rng') = span o.event_jitter_us rng in
    let (content, rest) = transform_payload e.kind e.content dx dz o rng' in
    (
      record {
        offset_us = not_negative (add_i64 (add_i64 e.offset_us delay) jitter);
        kind = e.kind;
        content = content;
      },
      rest,
    )

unfoldable pub amplify_events : ℤ → ℤ → ℤ → Options → List TraceEvent → ℕ → Drawn (List TraceEvent)
unfolding amplify_event
amplify_events delay dx dz o [] rng = ([], rng)
amplify_events delay dx dz o (e ∷ es) rng =
    let (e', rng') = amplify_event delay dx dz o e rng in
    let (es', rest) = amplify_events delay dx dz o es rng' in (e' ∷ es', rest)

-- The duration of the copy, and the offset of the last event where that is larger.
unfoldable pub duration_of : ℤ → List TraceEvent → ℤ
duration_of d [] = d
duration_of d (e ∷ []) = if ltb_ℤ d e.offset_us then e.offset_us else d
duration_of d (e ∷ x ∷ xs) = duration_of d (x ∷ xs)

unfoldable pub amplify_trace : Trace → List ℕ → Options → ℕ → Drawn Trace
unfolding amplify_events sort_by duration_of
amplify_trace src trace_id o rng =
    let (delay, rng_1) = upto o.start_jitter_us rng in
    let (dx, rng_2) = span o.space_spread rng_1 in
    let (dz, rng_3) = span o.space_spread rng_2 in
    let (es, rest) = amplify_events delay (i32 (u32 dx)) (i32 (u32 dz)) o src.events rng_3 in
    let sorted = sort_by (λ e. e.offset_us) es in
    (
      record {
        schema_version = latest_schema;
        protocol_version = src.protocol_version;
        world_profile_id = src.world_profile_id;
        trace_id = trace_id;
        duration_us = duration_of (add_i64 src.duration_us delay) sorted;
        origin = none;
        inventory = none;
        events = sorted;
      },
      rest,
    )
