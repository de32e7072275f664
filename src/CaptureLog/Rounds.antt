-- ===== src/CaptureLog/Rounds.antt =====
-- The loops of `Stream` end by themselves on any input: the rounds that the model gives are enough.
use mcbenchmark.Prelude.{
  ℕ, zero, suc, ◌≤◌, ◌≡◌, ◌≢◌, refl, sym, ap, ◌∙◌, inl, inr, List, [], ◌∷◌, none, some, length,
  length-drop, take, drop, Bool, true, false, if◌then◌else◌, ◌||◌, ◌==◌, ltb, ltb→le, Option-cases,
  arith,
}
use mcbenchmark.Wire.Reading.{
  truncated, bad_frame_length, Error, out_of_fuel, bad_compression, Result, ok, err, Reader, run,
}
use mcbenchmark.Wire.Fixed.{of_be}
use mcbenchmark.Wire.Tame.{
  Tame, Takes, Result-cases, Tame-bind, Takes-bind, Tame-pure, bytes-Tame, var_int-Tame,
  var_int-Takes, string-Tame, int64_be-Tame, decode-Tame,
}
use mcbenchmark.Event.{RawEvent, decode, decode_event}
use mcbenchmark.Compression.{Compression}
use mcbenchmark.CaptureLog.{
  max_frame_len, Outcome, and_then, read_header, decode_body, next_event, next_frame, event_loop,
  read_frame, stream_loop, stream,
}

run_fails {ℓ} :
    {A : Type ℓ} (m : Reader A) (bs : List ℕ) (x : Error)
    → Tame m
    → run m bs ≡ err x
    → x ≢ out_of_fuel
unfolding run
run_fails m bs x h e = elim (Result-cases (m bs)) [
  | inl ((a, rest), q) ↦ absurd (cc (rw (q, run) at e))
  | inr (y, q) ↦ λ same. h.fails bs y q (cc (rw (q, run) at e, same))
]

decode_body-Tame : (eb : List ℕ) → Tame (decode_body eb)
unfolding decode_body
decode_body-Tame eb = elim (Result-cases (decode_event eb)) [
  | inl (a, q) ↦ record {
    leaves = λ bs b rest e.
        let same : bs ≡ rest = cc (rw (q, decode_body) at e) in omega (arith, ap length same);
    fails = λ bs x e. absurd (cc (rw (q, decode_body) at e));
  }
  | inr (y, q) ↦ record {
    leaves = λ bs b rest e. absurd (cc (rw (q, decode_body) at e));
    fails = λ bs x e same.
        run_fails decode eb y decode-Tame (unfold decode_event in q)
          (cc (rw (q, decode_body) at e, same));
  }
]

next_event-Tame : Tame next_event
unfolding next_event
next_event-Tame =
    Tame-bind _ _ var_int-Tame (λ n. Tame-bind _ _ (bytes-Tame n) (λ eb. decode_body-Tame eb))

next_event-Takes : Takes next_event
unfolding next_event
next_event-Takes =
    Takes-bind _ _ var_int-Takes (λ n. Tame-bind _ _ (bytes-Tame n) (λ eb. decode_body-Tame eb))

header-Tame : Tame read_header
unfolding read_header
header-Tame = Tame-bind _ _ var_int-Tame (λ v.
    Tame-bind _ _ string-Tame (λ id.
      Tame-bind _ _ int64_be-Tame (λ start. Tame-bind _ _ int64_be-Tame (λ end. Tame-pure _))))

-- The three tests of `next_frame`.
abbrev chosen : Bool → Bool → Bool → List ℕ × List ℕ → Result (List ℕ × List ℕ)
chosen few bad cut r =
    if few
    then err truncated
    else if bad
    then err bad_frame_length
    else if cut
    then err truncated
    else ok r

chosen_ok :
    (few bad cut : Bool) (r s : List ℕ × List ℕ)
    → chosen few bad cut r ≡ ok s
    → (few ≡ false) × (r.1 ≡ s.1)
chosen_ok true bad cut r s h = absurd (cc h)
chosen_ok false true cut r s h = absurd (cc h)
chosen_ok false false true r s h = absurd (cc h)
chosen_ok false false false r s h = (refl, cc h)

chosen_err :
    (few bad cut : Bool) (r : List ℕ × List ℕ) (x : Error)
    → chosen few bad cut r ≡ err x
    → x ≢ out_of_fuel
chosen_err true bad cut r x h same = cc (h, same)
chosen_err false true cut r x h same = cc (h, same)
chosen_err false false true r x h same = cc (h, same)
chosen_err false false false r x h same = cc h

-- The length that a frame claims, and what stands behind it.
abbrev claimed : List ℕ → ℕ
claimed bs = of_be (take 4 bs)

next_frame_choice :
    (bs : List ℕ)
    → next_frame bs
      ≡ chosen
          (ltb (length bs) 4)
          (claimed bs == 0 || ltb max_frame_len (claimed bs))
          (ltb (length (drop 4 bs)) (claimed bs))
          (take (claimed bs) (drop 4 bs), drop (claimed bs) (drop 4 bs))
unfolding next_frame
next_frame_choice bs = refl

next_frame-Takes : Takes next_frame
next_frame-Takes bs frame rest e =
    let (enough, left) = chosen_ok _ _ _ _ (frame, rest) (sym (next_frame_choice bs) ∙ e) in
    omega (
      arith,
      ltb→le (length bs) 4 enough,
      ap length left,
      length-drop (claimed bs) (drop 4 bs),
      length-drop 4 bs,
    )

next_frame_fails : (bs : List ℕ) (x : Error) → next_frame bs ≡ err x → x ≢ out_of_fuel
next_frame_fails bs x e = chosen_err _ _ _ _ x (sym (next_frame_choice bs) ∙ e)

module _ {ℓ} {S : Type ℓ} where
  -- The work did not end for want of rounds.
  abbrev pub Ends : Outcome S → Type 0
  Ends o = o.1 ≢ some out_of_fuel

  Ends-and_then :
      (o : Outcome S) (k : S → Outcome S) → Ends o → ((s : S) → Ends (k s)) → Ends (and_then o k)
  Ends-and_then (s, none) k h g = g s
  Ends-and_then (s, some e) k h g = h

  Ends-err : (s : S) (x : Error) → x ≢ out_of_fuel → Ends (s, some x)
  Ends-err s x h = λ e. h (cc e)

module _ {ℓ} {S : Type ℓ} (fn : S → RawEvent → Outcome S)
    (calm : (s : S) (e : RawEvent) → Ends (fn s e)) where
  event_loop-Ends :
      (fuel : ℕ) (s : S) (bs : List ℕ) → length bs ≤ fuel → Ends (event_loop fn fuel s bs)
  unfolding event_loop
  event_loop-Ends fuel s [] h = λ e. cc e
  event_loop-Ends zero s (b ∷ bs) h = absurd (omega (arith, h))
  event_loop-Ends (suc fuel) s (b ∷ bs) h = elim (Result-cases (next_event (b ∷ bs))) [
    | inl ((e, rest), q) ↦
        rw (q, event_loop)
          (Ends-and_then (fn s e) _ (calm s e) (λ s'.
            event_loop-Ends fuel s' rest (omega (arith, h, next_event-Takes (b ∷ bs) e rest q))))
    | inr (x, q) ↦ rw (q, event_loop) (Ends-err s x (next_event-Tame.fails (b ∷ bs) x q))
  ]

module _ {ℓ} (zlib : Compression) {S : Type ℓ} (fn : S → RawEvent → Outcome S)
    (calm : (s : S) (e : RawEvent) → Ends (fn s e)) where
  read_frame-Ends : (s : S) (frame : List ℕ) → Ends (read_frame zlib fn s frame)
  unfolding read_frame
  read_frame-Ends s frame = elim (Result-cases (read_header frame)) [
    | inl ((h, rest), q) ↦ elim (Option-cases (zlib.decompress rest)) [
      | inl broken ↦ rw (q, broken, read_frame) (Ends-err s bad_compression (λ e. cc e))
      | inr (raw, unpacked) ↦
          rw (q, unpacked, read_frame) (event_loop-Ends fn calm (length raw) s raw (omega arith))
    ]
    | inr (x, q) ↦ rw (q, read_frame) (Ends-err s x (header-Tame.fails frame x q))
  ]

  stream_loop-Ends :
      (fuel : ℕ) (s : S) (bs : List ℕ) → length bs ≤ fuel → Ends (stream_loop zlib fn fuel s bs)
  unfolding stream_loop
  stream_loop-Ends fuel s [] h = λ e. cc e
  stream_loop-Ends zero s (b ∷ bs) h = absurd (omega (arith, h))
  stream_loop-Ends (suc fuel) s (b ∷ bs) h = elim (Result-cases (next_frame (b ∷ bs))) [
    | inl ((frame, rest), q) ↦
        rw (q, stream_loop)
          (Ends-and_then (read_frame zlib fn s frame) _ (read_frame-Ends s frame) (λ s'.
            stream_loop-Ends fuel s' rest
              (omega (arith, h, next_frame-Takes (b ∷ bs) frame rest q))))
    | inr (x, q) ↦ rw (q, stream_loop) (Ends-err s x (next_frame_fails (b ∷ bs) x q))
  ]

  -- Whatever bytes a file holds, reading it ends at its end, at an error of the code or at one of the
  -- callback, and never because the rounds of the model run out. The callback does not use that error.
  pub stream-Ends : (s : S) (content : List ℕ) → Ends (stream zlib fn s content)
  unfolding stream
  stream-Ends s content = stream_loop-Ends (length content) s content (omega arith)
