-- ===== src/Compile/Schedule.antt =====
-- The events of a compiled trace are those of the session within its time limit, in order.
use mcbenchmark.Prelude.{
  ℕ, ◌-◌, ◌≤◌, ◌≡◌, refl, ap, inl, inr, List, [], ◌∷◌, Option, none, some, Bool, true, ◌&&◌, ◌||◌,
  if◌then◌else◌, All, sym, ◌∙◌, Bool-cases, ltb→lt, lt→ltb, arith,
}
use mcbenchmark.Prelude.Int.{ℤ, pos, negsuc, ltb_ℤ, ◌==ℤ◌, ◌≤ℤ◌, pos_part, neg_part}
use mcbenchmark.Prelude.Word.{IsI64, sub_i64}
use mcbenchmark.Event.{RawEvent}
use mcbenchmark.Event.Kind
use mcbenchmark.Trace.Model.{Trace, TraceEvent}
use mcbenchmark.Float.{Floats}
use mcbenchmark.Compile.Session.{
  Options, micros, sort_events, first_time, last_time, cut_events, trace_of, compile_session,
}
use mcbenchmark.Compile.Sorting.{IsAscending, sort_events-All, sort_events-IsAscending}

-- A time since the plugin started.
abbrev pub IsTime : ℤ → Type 0
IsTime t = (pos 0 ≤ℤ t) × IsI64 t

-- No wrap: the offset of an event that is not before the base.
offset_exact :
    (t base : ℤ)
    → IsTime t
    → IsTime base
    → base ≤ℤ t
    → (pos 0 ≤ℤ sub_i64 t base) × (sub_i64 t base ≡ pos (pos_part t - pos_part base))
unfolding sub_i64
offset_exact (pos t) (pos base) ht hb h = ground arith
offset_exact (pos t) (negsuc base) ht hb h = ground arith
offset_exact (negsuc t) base ht hb h = absurd (omega arith)

abbrev kept_event : ℤ → RawEvent → TraceEvent
kept_event base e = record {
  offset_us = sub_i64 e.t_micro base;
  kind = e.kind;
  content = e.payload;
}

-- The events that a trace is to have, chosen one by one.
unfoldable pub selected : ℤ → ℤ → Bool → List RawEvent → List TraceEvent
selected base max_us drop_chat [] = []
selected base max_us drop_chat (e ∷ es) =
    let rest = selected base max_us drop_chat es in
    if ltb_ℤ max_us (sub_i64 e.t_micro base) || (drop_chat && e.kind ==ℤ Kind.cmd)
    then rest
    else kept_event base e ∷ rest

no_neg_part : (a : ℤ) → pos 0 ≤ℤ a → neg_part a ≡ 0
no_neg_part (pos n) h = refl
no_neg_part (negsuc n) h = absurd (omega (arith, h))

below_of_pos : (a b : ℤ) (m n : ℕ) → a ≡ pos m → b ≡ pos n → m ≤ n → a ≤ℤ b
below_of_pos a b m n p q h =
    rw (ap pos_part p, ap neg_part p, ap pos_part q, ap neg_part q) (omega (arith, h))

-- Of two events that are not before the base, the later has the larger offset.
pub offset-monotone :
    (base t u : ℤ)
    → IsTime base
    → IsTime t
    → IsTime u
    → base ≤ℤ t
    → t ≤ℤ u
    → sub_i64 t base ≤ℤ sub_i64 u base
offset-monotone base t u hb ht hu h k =
    below_of_pos (sub_i64 t base) (sub_i64 u base) (pos_part t - pos_part base)
      (pos_part u - pos_part base) (offset_exact t base ht hb h).1
      (offset_exact u base hu hb (omega (arith, h, k))).1
      (omega (arith, h, k, no_neg_part base hb.0, no_neg_part t ht.0, no_neg_part u hu.0))

past_later : (limit a b : ℤ) → a ≤ℤ b → ltb_ℤ limit a ≡ true → ltb_ℤ limit b ≡ true
past_later limit a b h k = lt→ltb _ _ (omega (arith, ltb→lt _ _ k, h))

later_offsets :
    (limit base t : ℤ) (es : List RawEvent)
    → IsTime base
    → IsTime t
    → base ≤ℤ t
    → ltb_ℤ limit (sub_i64 t base) ≡ true
    → All (λ x. IsTime x.t_micro) es
    → All (λ x. t ≤ℤ x.t_micro) es
    → All (λ x. ltb_ℤ limit (sub_i64 x.t_micro base) ≡ true) es
later_offsets limit base t [] hb ht h past k l = tt
later_offsets limit base t (x ∷ xs) hb ht h past k l = (
  past_later limit (sub_i64 t base) (sub_i64 x.t_micro base)
      (offset-monotone base t x.t_micro hb ht k.0 h l.0) past,
  later_offsets limit base t xs hb ht h past k.1 l.1,
)

none_selected :
    (base limit : ℤ) (drop_chat : Bool) (es : List RawEvent)
    → All (λ x. ltb_ℤ limit (sub_i64 x.t_micro base) ≡ true) es
    → selected base limit drop_chat es ≡ []
unfolding selected
none_selected base limit drop_chat [] h = refl
none_selected base limit drop_chat (e ∷ es) h = rw h.0 (none_selected base limit drop_chat es h.1)

pub cut_events-eq-selected :
    (base limit : ℤ) (drop_chat : Bool) (es : List RawEvent)
    → IsTime base
    → All (λ x. IsTime x.t_micro) es
    → All (λ x. base ≤ℤ x.t_micro) es
    → IsAscending es
    → cut_events base limit drop_chat es ≡ selected base limit drop_chat es
unfolding cut_events selected
cut_events-eq-selected base limit drop_chat [] hb ht h k = refl
cut_events-eq-selected base limit drop_chat (e ∷ es) hb ht h k =
    let rest = cut_events-eq-selected base limit drop_chat es hb ht.1 h.1 k.1 in
    elim (Bool-cases (ltb_ℤ limit (sub_i64 e.t_micro base))) [
      | inl past ↦ rw past (
          sym (
            none_selected base limit drop_chat es
              (later_offsets limit base e.t_micro es hb ht.0 h.0 past ht.1 k.0)))
      | inr within ↦ elim (Bool-cases (drop_chat && e.kind ==ℤ Kind.cmd)) [
        | inl dropped ↦ rw (within, dropped) rest
        | inr kept ↦ rw (within, kept) (ap (λ ts. kept_event base e ∷ ts) rest)
      ]
    ]

first_time-IsTime : (es : List RawEvent) → All (λ x. IsTime x.t_micro) es → IsTime (first_time es)
unfolding first_time
first_time-IsTime [] h = (omega arith, omega arith)
first_time-IsTime (e ∷ es) h = h.0

first_time-first : (es : List RawEvent) → IsAscending es → All (λ x. first_time es ≤ℤ x.t_micro) es
unfolding first_time
first_time-first [] h = tt
first_time-first (e ∷ es) h = (omega arith, h.0)

abbrev from_some : Trace → Option Trace → Trace
from_some t none = t
from_some t (some u) = u

trace_of-events :
    (floats : Floats) (o : Options) (name : List ℕ) (evs : List RawEvent) (cuts : List TraceEvent)
    (trace : Trace)
    → trace_of floats o name evs cuts ≡ some trace
    → trace.events ≡ cuts
unfolding trace_of
trace_of-events floats o name evs [] trace h = absurd (cc h)
trace_of-events floats o name evs (t ∷ ts) trace h = sym (ap (λ x. (from_some trace x).events) h)

-- A session that is kept gives a trace whose events are the session's, sorted by time, each at its
-- time after the first, without those after `MaxDuration` and, if `DropChat` is set, without the
-- commands: the early end of the loop loses nothing. The times are not negative and fit an int64.
pub compile_session-events :
    (floats : Floats) (o : Options) (name : List ℕ) (session : List RawEvent) (trace : Trace)
    → All (λ x. IsTime x.t_micro) session
    → compile_session floats o name session ≡ some trace
    → trace.events
      ≡ selected
          (first_time (sort_events session))
          (micros o.max_duration)
          o.drop_chat
          (sort_events session)
unfolding compile_session
compile_session-events floats o name session trace ht h =
    let sorted = sort_events session in
    let times : All (λ x. IsTime x.t_micro) sorted =
      sort_events-All (λ x. IsTime x.t_micro) session ht in
    elim (Bool-cases
      (ltb_ℤ (sub_i64 (last_time sorted) (first_time sorted)) (micros o.min_duration))) [
        | inl short ↦ absurd (cc (rw short at h))
        | inr long ↦
            trace_of-events floats o name sorted _ trace (rw long at h)
            ∙ cut_events-eq-selected (first_time sorted) (micros o.max_duration) o.drop_chat sorted
                (first_time-IsTime sorted times) times
                (first_time-first sorted (sort_events-IsAscending session))
                (sort_events-IsAscending session)
      ]
