-- ===== src/Compile/Run/Made.antt =====
-- What the sessions of a list leave in the output of `Run`, one after the other.
use mcbenchmark.Prelude.{
  ℕ, ◌+◌, ◌≡◌, refl, sym, ◌∙◌, ap, List, [], ◌∷◌, ◌++◌, length, length-append, none, some, arith,
}
use mcbenchmark.Compression.{Compression}
use mcbenchmark.Float.{Floats}
use mcbenchmark.Event.{RawEvent}
use mcbenchmark.Trace.Model.{Trace}
use mcbenchmark.Trace.File.{write_trace}
use mcbenchmark.Wire.Reading.{Result, ok, err}
use mcbenchmark.Wire.Outcome.{◌>>=◌ as ◌then◌}
use mcbenchmark.Compile.Sessions.{SessionKey, Sessions}
use mcbenchmark.Compile.Session.{compile_session}
use mcbenchmark.Compile.Run.{
  RunOptions, ManifestEntry, session_options, Output, trace_file, entry_of, trace_id_of, drop_one,
  keep_one,
}
use mcbenchmark.Prelude.{◌++◌, append-nil, append_assoc, length-append}

-- A result that is ok went through both steps.
pub then-ok {ℓ κ} :
    {A : Type ℓ} {B : Type κ} (r : Result A) (f : A → Result B) (b : B)
    → ◌then◌ r f ≡ ok b
    → (a : A) × (r ≡ ok a) × (f a ≡ ok b)
then-ok (ok a) f b h = (a, refl, h)
then-ok (err e) f b h = absurd (cc h)

pub ok_eq {ℓ} : {A : Type ℓ} {a b : A} → ok a ≡ ok b → a ≡ b
ok_eq h = cc h

module _ (floats : Floats) (lz4 : Compression) (o : RunOptions) where
  -- What the sessions of a list leave, from the number `n` on: each session in turn gives no trace, or
  -- it gives the trace of the next number, with its file and its line in the manifest.
  pub data Made : ℕ → Sessions → List (List ℕ × List ℕ) → List ManifestEntry → Type 0 where
    end : {n : ℕ} → Made n [] [] []
    dropped :
        {n : ℕ} {k : SessionKey} {s : List RawEvent} {ss : Sessions}
        {files : List (List ℕ × List ℕ)} {entries : List ManifestEntry}
        → compile_session floats (session_options o) (trace_id_of o.run_id n) s ≡ none
        → Made n ss files entries
        → Made n ((k, s) ∷ ss) files entries
    kept :
        {n : ℕ} {k : SessionKey} {s : List RawEvent} {ss : Sessions}
        {files : List (List ℕ × List ℕ)} {entries : List ManifestEntry} (t : Trace) (bytes : List ℕ)
        → compile_session floats (session_options o) (trace_id_of o.run_id n) s ≡ some t
        → write_trace lz4 t ≡ ok bytes
        → Made (n + 1) ss files entries
        → Made n ((k, s) ∷ ss) ((trace_file n, bytes) ∷ files) (entry_of k n t ∷ entries)

  Made-append :
      {n : ℕ} {xs ys : Sessions} {fs gs : List (List ℕ × List ℕ)} {ds es : List ManifestEntry}
      (m : ℕ)
      → Made n xs fs ds
      → m ≡ n + length fs
      → Made m ys gs es
      → Made n (xs ++ ys) (fs ++ gs) (ds ++ es)
  Made-append {n} m end e later = let same : n ≡ m = omega (arith, e) in rw same later
  Made-append m (dropped gone rest) e later = dropped gone (Made-append m rest e later)
  Made-append m (kept t bytes h w rest) e later =
      kept t bytes h w (Made-append m rest (e ∙ omega arith) later)

  -- From one state of the second pass to a later one, over the sessions between them.
  pub record Grows (ss : Sessions) (out out' : Output) : Type 0 where
    pub files : List (List ℕ × List ℕ)
    pub entries : List ManifestEntry
    pub made : Made (out.trace_num + 1) ss files entries
    pub more_files : out'.files ≡ out.files ++ files
    pub more_entries : out'.entries ≡ out.entries ++ entries
    pub numbered : out'.trace_num ≡ out.trace_num + length files
    pub counted : out'.dropped + length files ≡ out.dropped + length ss
    pub lines : length entries ≡ length files

  pub Grows-nil : (out : Output) → Grows [] out out
  Grows-nil out = record {
    files = [];
    entries = [];
    made = end;
    more_files = sym (append-nil out.files);
    more_entries = sym (append-nil out.entries);
    numbered = omega arith;
    counted = omega arith;
    lines = refl;
  }

  pub Grows-append :
      {xs ys : Sessions} {a b c : Output} → Grows xs a b → Grows ys b c → Grows (xs ++ ys) a c
  Grows-append {xs} {ys} {a} {b} {c} g h = record {
    files = g.files ++ h.files;
    entries = g.entries ++ h.entries;
    made = Made-append (b.trace_num + 1) g.made (omega (arith, g.numbered)) h.made;
    more_files =
        h.more_files ∙ ap (λ fs. fs ++ h.files) g.more_files ∙ append_assoc a.files g.files h.files;
    more_entries =
        h.more_entries
        ∙ ap (λ es. es ++ h.entries) g.more_entries
        ∙ append_assoc a.entries g.entries h.entries;
    numbered = omega (arith, g.numbered, h.numbered, length-append g.files h.files);
    counted =
        omega (arith, g.counted, h.counted, length-append g.files h.files, length-append xs ys);
    lines =
        omega (
          arith,
          g.lines,
          h.lines,
          length-append g.files h.files,
          length-append g.entries h.entries,
        );
  }

  pub keep_one-Grows :
      (out : Output) (k : SessionKey) (s : List RawEvent) (t : Trace) (bytes : List ℕ)
      → compile_session floats (session_options o) (trace_id_of o.run_id (out.trace_num + 1)) s
        ≡ some t
      → write_trace lz4 t ≡ ok bytes
      → Grows ((k, s) ∷ []) out (keep_one k t bytes out)
  unfolding keep_one
  keep_one-Grows out k s t bytes h w = record {
    files = (trace_file (out.trace_num + 1), bytes) ∷ [];
    entries = entry_of k (out.trace_num + 1) t ∷ [];
    made = kept t bytes h w end;
    more_files = refl;
    more_entries = refl;
    numbered = refl;
    counted = refl;
    lines = refl;
  }

  pub drop_one-Grows :
      (out : Output) (k : SessionKey) (s : List RawEvent)
      → compile_session floats (session_options o) (trace_id_of o.run_id (out.trace_num + 1)) s
        ≡ none
      → Grows ((k, s) ∷ []) out (drop_one out)
  drop_one-Grows out k s gone = record {
    files = [];
    entries = [];
    made = dropped gone end;
    more_files = sym (append-nil out.files);
    more_entries = sym (append-nil out.entries);
    numbered = omega arith;
    counted = omega arith;
    lines = refl;
  }
