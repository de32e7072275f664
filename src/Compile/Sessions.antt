-- ===== src/Compile/Sessions.antt =====
-- go/internal/compile/compile.go: `sessionKey`, and the grouping that `loadBucket` makes. Go's map
-- and its slice `order` are one association list in the order of first appearance.
use mcbenchmark.Prelude.{
  ℕ, ◌≡◌, ◌↔◌, sym, ◌∙◌, ap, List, [], ◌∷◌, ◌++◌, Bool, true, ◌&&◌, if◌then◌else◌, bytes_eq,
  bytes_eq_iff, append_assoc, append-nil, arith,
}
use mcbenchmark.Prelude.Int.{ℤ, ◌==ℤ◌, ==ℤ_iff}
use mcbenchmark.Event.{RawEvent}

pub record SessionKey : Type 0 where
  pub player : List ℕ
  pub seq : ℤ

abbrev pub key_of : RawEvent → SessionKey
key_of e = record { player = e.player_id; seq = e.session_seq }

unfoldable pub key_eq : SessionKey → SessionKey → Bool
unfolding bytes_eq
key_eq a b = bytes_eq a.player b.player && a.seq ==ℤ b.seq

pub key_eq_iff : (a b : SessionKey) → (key_eq a b ≡ true) ↔ (a ≡ b)
unfolding key_eq
key_eq_iff a b = ground (arith, bytes_eq_iff a.player b.player, ==ℤ_iff a.seq b.seq)

abbrev pub Sessions : Type 0
Sessions = List (SessionKey × List RawEvent)

-- `if _, ok := sessions[k]; !ok { order = append(order, k) }; sessions[k] = append(sessions[k], ev)`
unfoldable pub add_event : Sessions → RawEvent → Sessions
unfolding key_eq
add_event [] e = (key_of e, e ∷ []) ∷ []
add_event ((k, es) ∷ ss) e =
    if key_eq k (key_of e) then (k, es ++ (e ∷ [])) ∷ ss else (k, es) ∷ add_event ss e

unfoldable pub group_from : Sessions → List RawEvent → Sessions
unfolding add_event
group_from ss [] = ss
group_from ss (e ∷ es) = group_from (add_event ss e) es

-- `sessions[k]`
unfoldable pub events_of : SessionKey → Sessions → List RawEvent
events_of k [] = []
events_of k ((j, es) ∷ ss) = if key_eq j k then es else events_of k ss

-- The events of one session, in the order in which they were captured.
unfoldable pub of_session : SessionKey → List RawEvent → List RawEvent
of_session k [] = []
of_session k (e ∷ es) = if key_eq (key_of e) k then e ∷ of_session k es else of_session k es

events_of-add_event :
    (k : SessionKey) (ss : Sessions) (e : RawEvent)
    → events_of k (add_event ss e) ≡ events_of k ss ++ of_session k (e ∷ [])
unfolding events_of of_session add_event
events_of-add_event k [] e = ground arith
events_of-add_event k ((j, es) ∷ ss) e = ground (
  arith,
  key_eq_iff j (key_of e),
  key_eq_iff j k,
  key_eq_iff (key_of e) k,
  events_of-add_event k ss e,
  append-nil es,
  append-nil (events_of k ss),
)

of_session-cons :
    (k : SessionKey) (e : RawEvent) (es : List RawEvent)
    → of_session k (e ∷ es) ≡ of_session k (e ∷ []) ++ of_session k es
unfolding of_session
of_session-cons k e es = ground arith

pub events_of-group_from :
    (k : SessionKey) (es : List RawEvent) (ss : Sessions)
    → events_of k (group_from ss es) ≡ events_of k ss ++ of_session k es
unfolding group_from of_session
events_of-group_from k [] ss = sym (append-nil (events_of k ss))
events_of-group_from k (e ∷ es) ss =
    events_of-group_from k es (add_event ss e)
    ∙ ap (λ t. t ++ of_session k es) (events_of-add_event k ss e)
    ∙ append_assoc (events_of k ss) (of_session k (e ∷ [])) (of_session k es)
    ∙ ap (λ t. events_of k ss ++ t) (sym (of_session-cons k e es))

-- Grouping keeps every event: each session is read back whole and in order.
pub events_of-group :
    (k : SessionKey) (es : List RawEvent) → events_of k (group_from [] es) ≡ of_session k es
unfolding events_of
events_of-group k es = events_of-group_from k es []
