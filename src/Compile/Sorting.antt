-- ===== src/Compile/Sorting.antt =====
-- The stable sort of a session's events by time.
use mcbenchmark.Prelude.{List, All}
use mathlib.Core.List.{Perm}
use mcbenchmark.Prelude.Sort.{IsSortedBy, sort_by-All, sort_by-IsSortedBy, sort_by-perm}
use mcbenchmark.Event.{RawEvent}
use mcbenchmark.Compile.Session.{sort_events}

-- No event is later than one behind it.
abbrev pub IsAscending : List RawEvent → Type 0
IsAscending es = IsSortedBy (λ e. e.t_micro) es

pub sort_events-All {κ} :
    (P : RawEvent → Type κ) (es : List RawEvent) → All P es → All P (sort_events es)
unfolding sort_events
sort_events-All P es h = sort_by-All (λ e. e.t_micro) P es h

-- Sorted, no event of a session is before an earlier one of the list.
pub sort_events-IsAscending : (es : List RawEvent) → IsAscending (sort_events es)
unfolding sort_events
sort_events-IsAscending es = sort_by-IsSortedBy (λ e. e.t_micro) es

-- Sorting loses no event and adds none.
pub sort_events-perm : (es : List RawEvent) → Perm (sort_events es) es
unfolding sort_events
sort_events-perm es = sort_by-perm (λ e. e.t_micro) es
