-- ===== src/Compile/Run/Listed.antt =====
-- go/internal/compile/compile.go: the sessions of a capture, bucket by bucket and in the order in which
-- the second pass of `Run` takes them. Each is listed once.
use mcbenchmark.Prelude.{
  ℕ, zero, suc, ◌+◌, ◌%◌, ◌≤◌, ◌<◌, ◌≡◌, refl, ◌∙◌, ap, inl, inr, List, [], ◌∷◌, ◌++◌, Bool, false,
  ◌==◌, ◌||◌, ◌&&◌, leb, ltb, All, append-All, Bool-cases, arith,
}
use native.Mathlib.Nat.{mod-lt}
use mcbenchmark.Prelude.Int.{ℤ, ltb_ℤ}
use mcbenchmark.Prelude.Sort.{insert_by, sort_by, sort_by-All, insert_by-All}
use mcbenchmark.Event.{RawEvent}
use mcbenchmark.Compile.Sessions.{SessionKey, key_eq, key_eq_iff, Sessions, group_from, of_session}
use mcbenchmark.Compile.Session.{first_time}
use mcbenchmark.Compile.Spill.{bucket_of}
use mcbenchmark.Compile.Spill.Load.{in_bucket}
use mcbenchmark.Compile.Run.Grouped.{
  AreDistinct, IsFresh, has_key, captured, has_key-group, group-AreDistinct, IsWhole, group-IsWhole,
}

key_eq_comm : (a b : SessionKey) → key_eq a b ≡ false → key_eq b a ≡ false
key_eq_comm a b h = ground (arith, key_eq_iff a b, key_eq_iff b a)

module _ (key : SessionKey × List RawEvent → ℤ) where
  insert_by-AreDistinct :
      (k : SessionKey) (s : List RawEvent) (ss : Sessions)
      → IsFresh k ss
      → AreDistinct ss
      → AreDistinct (insert_by key (k, s) ss)
  unfolding insert_by
  insert_by-AreDistinct k s [] f d = (f, d)
  insert_by-AreDistinct k s ((j, t) ∷ ss) f d =
      elim (Bool-cases (ltb_ℤ (key (j, t)) (key (k, s)))) [
        | inl later ↦ rw later (
          insert_by-All key (λ x. key_eq j x.0 ≡ false) (k, s) ss (key_eq_comm k j f.0) d.0,
          insert_by-AreDistinct k s ss f.1 d.1,
        )
        | inr here ↦ rw here (f, d)
      ]

  sort_by-AreDistinct : (ss : Sessions) → AreDistinct ss → AreDistinct (sort_by key ss)
  unfolding sort_by
  sort_by-AreDistinct [] d = d
  sort_by-AreDistinct ((k, s) ∷ ss) d =
      insert_by-AreDistinct k s (sort_by key ss)
        (sort_by-All key (λ x. key_eq k x.0 ≡ false) ss d.0) (sort_by-AreDistinct ss d.1)

  has_key-insert_by :
      (k j : SessionKey) (s : List RawEvent) (ss : Sessions)
      → has_key (insert_by key (j, s) ss) k ≡ key_eq j k || has_key ss k
  unfolding has_key insert_by
  has_key-insert_by k j s [] = refl
  has_key-insert_by k j s ((i, t) ∷ ss) = ground (arith, has_key-insert_by k j s ss)

  has_key-sort_by : (k : SessionKey) (ss : Sessions) → has_key (sort_by key ss) k ≡ has_key ss k
  unfolding has_key sort_by
  has_key-sort_by k [] = refl
  has_key-sort_by k ((j, s) ∷ ss) =
      has_key-insert_by k j s (sort_by key ss) ∙ ap (λ b. key_eq j k || b) (has_key-sort_by k ss)

-- The sessions of one bucket, in the order of their first events.
unfoldable pub ordered : ℕ → List RawEvent → ℕ → Sessions
ordered buckets es b = sort_by (λ s. first_time s.1) (group_from [] (in_bucket buckets b es))

-- Those of `left` buckets from the bucket `i`.
unfoldable pub listed : ℕ → List RawEvent → ℕ → ℕ → Sessions
listed buckets es zero i = []
listed buckets es (suc left) i = ordered buckets es i ++ listed buckets es left (i + 1)

module _ (buckets : ℕ) (es : List RawEvent) where
  ordered-IsWhole : (b : ℕ) → All (IsWhole buckets b es) (ordered buckets es b)
  unfolding ordered
  ordered-IsWhole b =
      sort_by-All (λ s. first_time s.1) (IsWhole buckets b es) _ (group-IsWhole buckets b es)

  ordered-AreDistinct : (b : ℕ) → AreDistinct (ordered buckets es b)
  unfolding ordered
  ordered-AreDistinct b =
      sort_by-AreDistinct (λ s. first_time s.1) _ (group-AreDistinct buckets b es)

  has_key-ordered :
      (b : ℕ) (k : SessionKey)
      → has_key (ordered buckets es b) k ≡ (b == bucket_of k % buckets) && captured k es
  unfolding ordered
  has_key-ordered b k = has_key-sort_by (λ s. first_time s.1) k _ ∙ has_key-group buckets b k es

  has_key-append :
      (k : SessionKey) (xs ys : Sessions) → has_key (xs ++ ys) k ≡ has_key xs k || has_key ys k
  unfolding has_key
  has_key-append k [] ys = refl
  has_key-append k ((j, s) ∷ xs) ys = ground (arith, has_key-append k xs ys)

  has_key-listed_from :
      (left i : ℕ) (k : SessionKey)
      → has_key (listed buckets es left i) k
        ≡ (leb i (bucket_of k % buckets) && ltb (bucket_of k % buckets) (i + left)) && captured k es
  unfolding listed
  has_key-listed_from zero i k = unfold has_key in ground arith
  has_key-listed_from (suc left) i k = ground (
    arith,
    has_key-append k (ordered buckets es i) (listed buckets es left (i + 1)),
    has_key-ordered i k,
    has_key-listed_from left (i + 1) k,
  )

  -- A session of the list, of the bucket `i` or of a later one.
  abbrev IsFrom : ℕ → SessionKey × List RawEvent → Type 0
  IsFrom i (k, s) = (i ≤ bucket_of k % buckets) × (s ≡ of_session k es)

  bucket-IsFrom : (i : ℕ) (ss : Sessions) → All (IsWhole buckets i es) ss → All (IsFrom i) ss
  bucket-IsFrom i [] h = tt
  bucket-IsFrom i ((k, s) ∷ ss) h = ((omega (arith, h.0.0), h.0.1), bucket-IsFrom i ss h.1)

  lower-IsFrom : (i : ℕ) (ss : Sessions) → All (IsFrom (i + 1)) ss → All (IsFrom i) ss
  lower-IsFrom i [] h = tt
  lower-IsFrom i ((k, s) ∷ ss) h = ((omega (arith, h.0.0), h.0.1), lower-IsFrom i ss h.1)

  listed-IsFrom : (left i : ℕ) → All (IsFrom i) (listed buckets es left i)
  unfolding listed
  listed-IsFrom zero i = tt
  listed-IsFrom (suc left) i =
      append-All (IsFrom i) (ordered buckets es i) _ (bucket-IsFrom i _ (ordered-IsWhole i))
        (lower-IsFrom i _ (listed-IsFrom left (i + 1)))

  later-IsFresh :
      (i : ℕ) (k : SessionKey) (ss : Sessions)
      → i ≡ bucket_of k % buckets
      → All (IsFrom (i + 1)) ss
      → IsFresh k ss
  later-IsFresh i k [] h later = tt
  later-IsFresh i k ((j, s) ∷ ss) h later = (
    elim (Bool-cases (key_eq k j)) [
      | inl same ↦
          let e : bucket_of k % buckets ≡ bucket_of j % buckets =
            ap (λ x. bucket_of x % buckets) ((key_eq_iff k j).0 same) in
          absurd (omega (arith, h, e, later.0.0))
      | inr other ↦ other
    ],
    later-IsFresh i k ss h later.1,
  )

  append-AreDistinct :
      (i : ℕ) (xs ys : Sessions)
      → AreDistinct xs
      → All (IsWhole buckets i es) xs
      → AreDistinct ys
      → All (IsFrom (i + 1)) ys
      → AreDistinct (xs ++ ys)
  append-AreDistinct i [] ys d h e later = e
  append-AreDistinct i ((k, s) ∷ xs) ys d h e later = (
    append-All (λ x. key_eq k x.0 ≡ false) xs ys d.0 (later-IsFresh i k ys h.0.0 later),
    append-AreDistinct i xs ys d.1 h.1 e later,
  )

  listed-AreDistinct : (left i : ℕ) → AreDistinct (listed buckets es left i)
  unfolding listed
  listed-AreDistinct zero i = tt
  listed-AreDistinct (suc left) i =
      append-AreDistinct i (ordered buckets es i) _ (ordered-AreDistinct i) (ordered-IsWhole i)
        (listed-AreDistinct left (i + 1)) (listed-IsFrom left (i + 1))

-- The sessions are those of the capture: no key twice, a session for each key of an event and for no
-- other, and each with all the events of its key, in the order of the capture.
pub record AreSessions (es : List RawEvent) (ss : Sessions) : Type 0 where
  pub distinct : AreDistinct ss
  pub complete : (k : SessionKey) → has_key ss k ≡ captured k es
  pub whole : All (λ s. s.1 ≡ of_session s.0 es) ss

from_All :
    (buckets i : ℕ) (es : List RawEvent) (ss : Sessions)
    → All (IsFrom buckets es i) ss
    → All (λ s. s.1 ≡ of_session s.0 es) ss
from_All buckets i es [] h = tt
from_All buckets i es ((k, s) ∷ ss) h = (h.0.1, from_All buckets i es ss h.1)

-- Whatever the number of buckets, those of all of them are the sessions of the capture.
pub listed-AreSessions :
    (buckets : ℕ) (es : List RawEvent) → 0 < buckets → AreSessions es (listed buckets es buckets 0)
listed-AreSessions buckets es h = record {
  distinct = listed-AreDistinct buckets es buckets 0;
  complete = λ k.
      has_key-listed_from buckets es buckets 0 k
      ∙ in_range (bucket_of k % buckets) (mod-lt (bucket_of k) h) (captured k es);
  whole = from_All buckets 0 es _ (listed-IsFrom buckets es buckets 0);
}
  where
    in_range : (b : ℕ) → b < buckets → (c : Bool) → (leb 0 b && ltb b (0 + buckets)) && c ≡ c
    in_range b lt c = ground arith
