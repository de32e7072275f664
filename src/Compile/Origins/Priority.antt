-- ===== src/Compile/Origins/Priority.antt =====
-- Which event decides the origin of a session: the start marker, else the first re-anchor, else the
-- first block that was dug or placed.
use mcbenchmark.Prelude.{◌≡◌, refl, List, [], ◌∷◌, ◌++◌, Option, none, some, All, arith}
use mcbenchmark.Prelude.Word.{IsI32}
use mcbenchmark.Payload.Position.{
  Place, IsPlaceBits, encode_marker_at, decode_marker_at-encode_marker_at, ReanchorPayload,
  encode_reanchor, decode_reanchor-encode_reanchor,
}
use mcbenchmark.Event.{RawEvent}
use mcbenchmark.Event.Kind
use mcbenchmark.Float.{Floats}
use mcbenchmark.Compile.Origins.{
  first_some, session_start, exact_origin, marker_origin, reanchor_origin, resolve_origin,
}

-- The events before the one that decides are all passed over.
abbrev pub Skipped {ℓ κ} : {A : Type ℓ} {B : Type κ} → (A → Option B) → List A → Type κ
Skipped f es = All (λ e. f e ≡ none) es

module _ {ℓ κ} {A : Type ℓ} {B : Type κ} (f : A → Option B) where
  first_some-found :
      (before : List A) (x : A) (after : List A) {b : B}
      → Skipped f before
      → f x ≡ some b
      → first_some f (before ++ (x ∷ after)) ≡ some b
  unfolding first_some
  first_some-found [] x after h e = rw (e, first_some)
  first_some-found (y ∷ ys) x after h e = rw (h.0, first_some) (first_some-found ys x after h.1 e)

  first_some-none : (xs : List A) → Skipped f xs → first_some f xs ≡ none
  unfolding first_some
  first_some-none [] h = refl
  first_some-none (y ∷ ys) h = rw (h.0, first_some) (first_some-none ys h.1)

marker_origin-start :
    (e : RawEvent) (p : Place)
    → e.kind ≡ Kind.marker
    → e.payload ≡ encode_marker_at session_start p
    → IsPlaceBits p
    → marker_origin e ≡ some (exact_origin p e.dimension_id)
unfolding marker_origin
marker_origin-start e p k pl h =
    rw (k, pl, decode_marker_at-encode_marker_at session_start p (omega arith) h)

reanchor_origin-encoded :
    (e : RawEvent) (d : ReanchorPayload)
    → e.kind ≡ Kind.reanchor
    → e.payload ≡ encode_reanchor d
    → IsPlaceBits d.place
    → IsI32 d.dimension
    → reanchor_origin e ≡ some (exact_origin d.place d.dimension)
unfolding reanchor_origin
reanchor_origin-encoded e d k pl h i = rw (k, pl, decode_reanchor-encode_reanchor d h i)

module _ (floats : Floats) (before after : List RawEvent) (e : RawEvent) where
  -- The first start marker with a position decides, whatever else the session holds: its position
  -- is the origin, in the dimension of the event.
  pub resolve_origin-marker :
      (p : Place)
      → Skipped marker_origin before
      → e.kind ≡ Kind.marker
      → e.payload ≡ encode_marker_at session_start p
      → IsPlaceBits p
      → resolve_origin floats (before ++ (e ∷ after)) ≡ some (exact_origin p e.dimension_id)
  unfolding resolve_origin
  resolve_origin-marker p h k pl fits = rw (
    first_some-found marker_origin before e after h (marker_origin-start e p k pl fits),
    resolve_origin,
  )

  -- With no start marker in the session, the first re-anchor decides, with its own dimension.
  pub resolve_origin-reanchor :
      (d : ReanchorPayload)
      → Skipped marker_origin (before ++ (e ∷ after))
      → Skipped reanchor_origin before
      → e.kind ≡ Kind.reanchor
      → e.payload ≡ encode_reanchor d
      → IsPlaceBits d.place
      → IsI32 d.dimension
      → resolve_origin floats (before ++ (e ∷ after)) ≡ some (exact_origin d.place d.dimension)
  unfolding resolve_origin
  resolve_origin-reanchor d no_marker h k pl fits dim = rw (
    first_some-none marker_origin _ no_marker,
    first_some-found reanchor_origin before e after h (reanchor_origin-encoded e d k pl fits dim),
    resolve_origin,
  )
