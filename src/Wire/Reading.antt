-- ===== src/Wire/Reading.antt =====
-- The result of a decoder, and the decoders in sequence: Go's `if v, err = r.F(); err != nil`.
use mcbenchmark.Prelude.{ℕ, ◌≡◌, List, [], ◌++◌, append-nil, append_assoc, refl, sym, ap, ◌∙◌}

-- What an operation fails with; the texts that `fmt.Errorf` wraps round a cause are left out.
pub data Error : Type 0 where
  short negative_length var_int_too_long negative_count implausible_count : Error
  bad_magic bad_schema needs_schema bad_compression : Error
  truncated bad_frame_length no_files : Error
  no_input no_traces : Error
  bad_packet_length : Error
  bad_palette_index unknown_tag : Error
  -- No Go value: the program panics.
  panics : Error
  -- No Go value: a loop of the model used up the rounds it was given.
  out_of_fuel : Error

pub data Result {ℓ} (A : Type ℓ) : Type ℓ where
  ok : A → Result A
  err : Error → Result A

-- A decoder takes the unread bytes, and returns its value with those it leaves.
abbrev pub Reader {ℓ} : Type ℓ → Type ℓ
Reader A = List ℕ → Result (A × List ℕ)

unfoldable pub pure {ℓ} : {A : Type ℓ} → A → Reader A
pure a bs = ok (a, bs)

unfoldable pub fail {ℓ} : {A : Type ℓ} → Error → Reader A
fail e bs = err e

infixl 5 ◌>>=◌ ◌>>◌
unfoldable pub ◌>>=◌ {ℓ κ} : {A : Type ℓ} {B : Type κ} → Reader A → (A → Reader B) → Reader B
◌>>=◌ m f bs = elim (m bs) [ ok (a, rest) ↦ f a rest | err e ↦ err e ]

unfoldable pub ◌>>◌ {ℓ κ} : {A : Type ℓ} {B : Type κ} → Reader A → Reader B → Reader B
unfolding ◌>>=◌
m >> k = m >>= λ _. k

-- The decoder reads exactly these bytes as this value, whatever follows them.
pub record Reads {ℓ} {A : Type ℓ} (m : Reader A) (bytes : List ℕ) (a : A) : Type ℓ where
  pub reads : (rest : List ℕ) → m (bytes ++ rest) ≡ ok (a, rest)

module _ {ℓ κ} {A : Type ℓ} {B : Type κ} (m : Reader A) (f : A → Reader B) where
  pub >>=-ok : {bs rest : List ℕ} {a : A} → m bs ≡ ok (a, rest) → (m >>= f) bs ≡ f a rest
  unfolding ◌>>=◌
  >>=-ok h = rw (h, ◌>>=◌)

  pub >>=-err : {bs : List ℕ} {e : Error} → m bs ≡ err e → (m >>= f) bs ≡ err e
  unfolding ◌>>=◌
  >>=-err h = rw (h, ◌>>=◌)

module _ {ℓ κ} {A : Type ℓ} {B : Type κ} where
  pub Reads-bind :
      {m : Reader A} (f : A → Reader B) {xs ys : List ℕ} {a : A} {b : B}
      → Reads m xs a
      → Reads (f a) ys b
      → Reads (m >>= f) (xs ++ ys) b
  Reads-bind {m} f {xs} {ys} {a} {b} p q = record {
    reads = λ rest. rw append_assoc (>>=-ok m f (p.reads (ys ++ rest)) ∙ q.reads rest);
  }

  -- The last field of a decoder: what follows it reads nothing.
  pub Reads-last :
      {m : Reader A} (f : A → Reader B) {xs : List ℕ} {a : A} {b : B}
      → Reads m xs a
      → Reads (f a) [] b
      → Reads (m >>= f) xs b
  Reads-last {m} f p q = record { reads = λ rest. >>=-ok m f (p.reads rest) ∙ q.reads rest }

  pub Reads-then :
      {m : Reader A} (k : Reader B) {xs ys : List ℕ} {a : A} {b : B}
      → Reads m xs a
      → Reads k ys b
      → Reads (m >> k) (xs ++ ys) b
  unfolding ◌>>◌
  Reads-then k p q = Reads-bind (λ _. k) p q

pub Reads-pure {ℓ} : {A : Type ℓ} {a : A} → Reads (pure a) [] a
unfolding pure
Reads-pure = record { reads = λ rest. refl }

-- A decoder on a fresh `Reader` over the whole slice; what it leaves is not looked at.
unfoldable pub run {ℓ} : {A : Type ℓ} → Reader A → List ℕ → Result A
run m bs = elim (m bs) [ ok (a, rest) ↦ ok a | err e ↦ err e ]

pub run-Reads {ℓ} :
    {A : Type ℓ} {m : Reader A} {bs : List ℕ} {a : A} → Reads m bs a → run m bs ≡ ok a
unfolding run
run-Reads {m = m} {bs} r = rw (← append-nil bs, r.reads [], run)

-- The first step of a decoder, where the rest depends on how much is left.
pub run-bind {ℓ κ} :
    {A : Type ℓ} {B : Type κ} {m : Reader A} (f : A → Reader B) {xs : List ℕ} {a : A} (ys : List ℕ)
    → Reads m xs a
    → run (m >>= f) (xs ++ ys) ≡ run (f a) ys
unfolding run
run-bind {m = m} f ys r = rw (>>=-ok m f (r.reads ys), run)

pub run-bind_end {ℓ κ} :
    {A : Type ℓ} {B : Type κ} {m : Reader A} (f : A → Reader B) {xs : List ℕ} {a : A}
    → Reads m xs a
    → run (m >>= f) xs ≡ run (f a) []
run-bind_end {m = m} f {xs} r = ap (run (m >>= f)) (sym (append-nil xs)) ∙ run-bind f [] r

pub run-pure {ℓ} : {A : Type ℓ} (a : A) (bs : List ℕ) → run (pure a) bs ≡ ok a
unfolding run pure
run-pure a bs = refl

result_ok {ℓ} :
    {A : Type ℓ} (r : Result (A × List ℕ)) {a : A}
    → elim r [ ok (b, rest) ↦ ok b | err e ↦ err e ] ≡ ok a
    → (rest : List ℕ) × (r ≡ ok (a, rest))
result_ok (ok (b, rest)) h = (rest, cc)
result_ok (err e) h = cc

-- A decoder that succeeds on a slice leaves some of it.
pub run-ok {ℓ} :
    {A : Type ℓ} (m : Reader A) (bs : List ℕ) {a : A}
    → run m bs ≡ ok a
    → (rest : List ℕ) × (m bs ≡ ok (a, rest))
unfolding run
run-ok m bs h = result_ok (m bs) h
