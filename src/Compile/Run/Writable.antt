-- ===== src/Compile/Run/Writable.antt =====
-- go/internal/compile/compile.go: a trace that the compiler makes can be written, and whether it is made
-- does not depend on its name.
use mcbenchmark.Prelude.{
  ℕ, ◌≡◌, ◌≢◌, refl, sym, ◌∙◌, ◌⊎◌, inl, inr, List, [], ◌∷◌, ◌++◌, none, some, some_eq, Bool-cases,
}
use mcbenchmark.Prelude.Int.{ltb_ℤ}
use mcbenchmark.Prelude.Word.{sub_i64}
use mcbenchmark.Compression.{Compression}
use mcbenchmark.Float.{Floats}
use mcbenchmark.Event.{RawEvent}
use mcbenchmark.Trace.Model.{Trace, TraceEvent}
use mcbenchmark.Trace.Origins.{write_origin, write_inventory, write_block}
use mcbenchmark.Trace.File.{write_trace, trace_body, magic}
use mcbenchmark.Wire.Reading.{ok, bad_compression}
use mcbenchmark.Wire.Outcome.{◌>>=◌ as ◌then◌, or_fail}
use mcbenchmark.Compile.Session.{
  Options, sort_events, first_time, last_time, cut_events, micros, trace_of, compile_session,
}

pub not_nil {ℓ} : {A : Type ℓ} (xs : List A) (a : A) → xs ++ (a ∷ []) ≢ []
not_nil [] a h = cc h
not_nil (x ∷ xs) a h = cc h

pub List-cases {ℓ} :
    {A : Type ℓ} (xs : List A) → (xs ≡ []) ⊎ ((a : A) × (rest : List A) × (xs ≡ a ∷ rest))
List-cases [] = inl refl
List-cases (a ∷ rest) = inr (a, rest, refl)

module _ (floats : Floats) (lz4 : Compression) (o : Options) where
  packed :
      (body : List ℕ)
      → (bytes : List ℕ) × (◌then◌
            (or_fail (lz4.compress body) bad_compression)
            (λ c. ok (magic ++ c))
          ≡ ok bytes)
  packed body = let (c, e, back) = lz4.inverse body in (magic ++ c, rw e)

  trace_of-written :
      (name : List ℕ) (evs : List RawEvent) (cuts : List TraceEvent) (t : Trace)
      → trace_of floats o name evs cuts ≡ some t
      → (bytes : List ℕ) × (write_trace lz4 t ≡ ok bytes)
  unfolding trace_of write_trace trace_body write_origin write_inventory write_block
  trace_of-written name evs [] t h = absurd (cc h)
  trace_of-written name evs (c ∷ cs) t h = rw (sym (some_eq h)) (packed _)

  trace_of-none :
      (name other : List ℕ) (evs : List RawEvent) (cuts : List TraceEvent)
      → trace_of floats o name evs cuts ≡ none
      → trace_of floats o other evs cuts ≡ none
  unfolding trace_of
  trace_of-none name other evs [] h = refl
  trace_of-none name other evs (c ∷ cs) h = absurd (cc h)

  session-cases :
      (s : List RawEvent)
      → ((name : List ℕ) → compile_session floats o name s ≡ none)
        ⊎ ((evs : List RawEvent) × (cuts : List TraceEvent) × ((name : List ℕ)
              → compile_session floats o name s ≡ trace_of floats o name evs cuts))
  unfolding compile_session
  session-cases s =
      let evs = sort_events s in
      let base = first_time evs in
      elim (Bool-cases (ltb_ℤ (sub_i64 (last_time evs) base) (micros o.min_duration))) [
        | inl short ↦ inl (λ name. rw short)
        | inr long ↦
            inr (evs, cut_events base (micros o.max_duration) o.drop_chat evs, λ name. rw long)
      ]

  -- A trace that the compiler makes has the latest schema, which can write all of it.
  pub compile_session-written :
      (name : List ℕ) (s : List RawEvent) (t : Trace)
      → compile_session floats o name s ≡ some t
      → (bytes : List ℕ) × (write_trace lz4 t ≡ ok bytes)
  compile_session-written name s t h = elim (session-cases s) [
    | inl gone ↦ absurd (cc (h, gone name))
    | inr (evs, cuts, e) ↦ trace_of-written name evs cuts t (sym (e name) ∙ h)
  ]

  -- Whether a session is dropped does not depend on the name of the trace.
  pub compile_session-none :
      (name other : List ℕ) (s : List RawEvent)
      → compile_session floats o name s ≡ none
      → compile_session floats o other s ≡ none
  compile_session-none name other s h = elim (session-cases s) [
    | inl gone ↦ gone other
    | inr (evs, cuts, e) ↦ e other ∙ trace_of-none name other evs cuts (sym (e name) ∙ h)
  ]
