-- ===== src/Compile/Run/Grouped.antt =====
-- The sessions that a bucket is grouped into are whole: no key comes twice.
use mcbenchmark.Prelude.{
  ℕ, ◌%◌, ◌≡◌, refl, ◌∙◌, inl, inr, List, [], ◌∷◌, Bool, false, ◌==◌, ==_iff, ◌||◌, ◌&&◌, arith,
  if◌then◌else◌, All, Bool-cases,
}
use mcbenchmark.Event.{RawEvent}
use mcbenchmark.Compile.Sessions.{
  SessionKey, key_of, key_eq, key_eq_iff, Sessions, add_event, group_from, events_of, of_session,
  events_of-group,
}
use mcbenchmark.Compile.Spill.{bucket_of}
use mcbenchmark.Compile.Spill.Load.{in_bucket, of_session-in_bucket}

-- No session of the list has the key.
abbrev pub IsFresh : SessionKey → Sessions → Type 0
IsFresh k ss = All (λ s. key_eq k s.0 ≡ false) ss

abbrev pub AreDistinct : Sessions → Type 0
AreDistinct [] = Unit
AreDistinct ((k, es) ∷ ss) = IsFresh k ss × AreDistinct ss

add_event-IsFresh :
    (k : SessionKey) (ss : Sessions) (e : RawEvent)
    → key_eq k (key_of e) ≡ false
    → IsFresh k ss
    → IsFresh k (add_event ss e)
unfolding add_event
add_event-IsFresh k [] e h f = (h, tt)
add_event-IsFresh k ((j, es) ∷ ss) e h f = elim (Bool-cases (key_eq j (key_of e))) [
  | inl same ↦ rw same f
  | inr other ↦ rw other (f.0, add_event-IsFresh k ss e h f.1)
]

add_event-AreDistinct :
    (ss : Sessions) (e : RawEvent) → AreDistinct ss → AreDistinct (add_event ss e)
unfolding add_event
add_event-AreDistinct [] e h = (tt, tt)
add_event-AreDistinct ((j, es) ∷ ss) e h = elim (Bool-cases (key_eq j (key_of e))) [
  | inl same ↦ rw same h
  | inr other ↦ rw other (add_event-IsFresh j ss e other h.0, add_event-AreDistinct ss e h.1)
]

group_from-AreDistinct :
    (es : List RawEvent) (ss : Sessions) → AreDistinct ss → AreDistinct (group_from ss es)
unfolding group_from
group_from-AreDistinct [] ss h = h
group_from-AreDistinct (e ∷ es) ss h =
    group_from-AreDistinct es (add_event ss e) (add_event-AreDistinct ss e h)

-- The list reads the session back under its key.
abbrev IsFound : Sessions → SessionKey × List RawEvent → Type 0
IsFound ss (k, es) = es ≡ events_of k ss

IsFound-later :
    (j : SessionKey) (es : List RawEvent) (ss ts : Sessions)
    → IsFresh j ts
    → All (IsFound ss) ts
    → All (IsFound ((j, es) ∷ ss)) ts
unfolding events_of
IsFound-later j es ss [] f h = tt
IsFound-later j es ss ((k, xs) ∷ ts) f h = (rw f.0 h.0, IsFound-later j es ss ts f.1 h.1)

distinct-IsFound : (ss : Sessions) → AreDistinct ss → All (IsFound ss) ss
unfolding events_of
distinct-IsFound [] h = tt
distinct-IsFound ((k, es) ∷ ss) h =
    (rw ((key_eq_iff k k).1 refl), IsFound-later k es ss ss h.0 (distinct-IsFound ss h.1))

-- A session of the list has the key.
unfoldable pub has_key : Sessions → SessionKey → Bool
has_key [] k = false
has_key ((j, es) ∷ ss) k = key_eq j k || has_key ss k

-- One of the events is of the session.
unfoldable pub captured : SessionKey → List RawEvent → Bool
captured k [] = false
captured k (e ∷ es) = key_eq (key_of e) k || captured k es

has_key-add_event :
    (k : SessionKey) (ss : Sessions) (e : RawEvent)
    → has_key (add_event ss e) k ≡ has_key ss k || key_eq (key_of e) k
unfolding has_key add_event
has_key-add_event k [] e = ground arith
has_key-add_event k ((j, es) ∷ ss) e = ground (
  arith,
  key_eq_iff j (key_of e),
  key_eq_iff j k,
  key_eq_iff (key_of e) k,
  has_key-add_event k ss e,
)

has_key-group_from :
    (k : SessionKey) (es : List RawEvent) (ss : Sessions)
    → has_key (group_from ss es) k ≡ has_key ss k || captured k es
unfolding group_from captured
has_key-group_from k [] ss = ground arith
has_key-group_from k (e ∷ es) ss =
    ground (arith, has_key-group_from k es (add_event ss e), has_key-add_event k ss e)

captured-in_bucket :
    (buckets b : ℕ) (k : SessionKey) (es : List RawEvent)
    → captured k (in_bucket buckets b es) ≡ (b == bucket_of k % buckets) && captured k es
unfolding captured in_bucket
captured-in_bucket buckets b k [] = ground arith
captured-in_bucket buckets b k (e ∷ es) =
    ground (arith, key_eq_iff (key_of e) k, captured-in_bucket buckets b k es)

-- A bucket has a session for each key of its number that was captured, and for no other.
pub has_key-group :
    (buckets b : ℕ) (k : SessionKey) (es : List RawEvent)
    → has_key (group_from [] (in_bucket buckets b es)) k
      ≡ (b == bucket_of k % buckets) && captured k es
unfolding has_key
has_key-group buckets b k es =
    has_key-group_from k (in_bucket buckets b es) [] ∙ captured-in_bucket buckets b k es

pub group-AreDistinct :
    (buckets b : ℕ) (es : List RawEvent) → AreDistinct (group_from [] (in_bucket buckets b es))
group-AreDistinct buckets b es = group_from-AreDistinct (in_bucket buckets b es) [] tt

-- The session is of the bucket, and has all the events of its key.
abbrev pub IsWhole : ℕ → ℕ → List RawEvent → SessionKey × List RawEvent → Type 0
IsWhole buckets b es (k, s) = (b ≡ bucket_of k % buckets) × (s ≡ of_session k es)

-- The key of each session has the bucket.
abbrev HasBucket : ℕ → ℕ → SessionKey → Type 0
HasBucket buckets b k = b ≡ bucket_of k % buckets

add_event-HasBucket :
    (buckets b : ℕ) (ss : Sessions) (e : RawEvent)
    → HasBucket buckets b (key_of e)
    → All (λ s. HasBucket buckets b s.0) ss
    → All (λ s. HasBucket buckets b s.0) (add_event ss e)
unfolding add_event
add_event-HasBucket buckets b [] e h all = (h, tt)
add_event-HasBucket buckets b ((j, es) ∷ ss) e h all = elim (Bool-cases (key_eq j (key_of e))) [
  | inl same ↦ rw same all
  | inr other ↦ rw other (all.0, add_event-HasBucket buckets b ss e h all.1)
]

group_from-HasBucket :
    (buckets b : ℕ) (es : List RawEvent) (ss : Sessions)
    → All (λ s. HasBucket buckets b s.0) ss
    → All (λ s. HasBucket buckets b s.0) (group_from ss (in_bucket buckets b es))
unfolding group_from in_bucket
group_from-HasBucket buckets b [] ss all = all
group_from-HasBucket buckets b (e ∷ es) ss all =
    elim (Bool-cases (b == bucket_of (key_of e) % buckets)) [
      | inl here ↦ rw here (
          group_from-HasBucket buckets b es (add_event ss e)
            (add_event-HasBucket buckets b ss e ((==_iff _ _).0 here) all))
      | inr elsewhere ↦ rw elsewhere (group_from-HasBucket buckets b es ss all)
    ]

found-IsWhole :
    (buckets b : ℕ) (es : List RawEvent) (ss : Sessions)
    → All (IsFound (group_from [] (in_bucket buckets b es))) ss
    → All (λ s. HasBucket buckets b s.0) ss
    → All (IsWhole buckets b es) ss
found-IsWhole buckets b es [] h k = tt
found-IsWhole buckets b es ((j, s) ∷ ss) h k =
    let e : s ≡ (if b == bucket_of j % buckets then of_session j es else []) =
      h.0 ∙ events_of-group j (in_bucket buckets b es) ∙ of_session-in_bucket buckets b j es in
    ((k.0, rw ((==_iff _ _).1 k.0) at e), found-IsWhole buckets b es ss h.1 k.1)

pub group-IsWhole :
    (buckets b : ℕ) (es : List RawEvent)
    → All (IsWhole buckets b es) (group_from [] (in_bucket buckets b es))
group-IsWhole buckets b es =
    found-IsWhole buckets b es _ (distinct-IsFound _ (group-AreDistinct buckets b es))
      (group_from-HasBucket buckets b es [] tt)
