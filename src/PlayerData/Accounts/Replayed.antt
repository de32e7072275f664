-- ===== src/PlayerData/Accounts/Replayed.antt =====
-- go/internal/playerdata/playerdata.go and go/internal/replay/runner.go: an account is placed where the
-- trace that its session replays begins.
use mcbenchmark.Prelude.{
  ℕ, zero, suc, ◌%◌, ◌≡◌, refl, sym, ap, ◌∙◌, List, [], ◌∷◌, length, get_elem?, false, Option, some,
  some_eq, some-of_step, bytes_eq,
}
use mcbenchmark.Prelude.Int.{ℤ}
use mcbenchmark.Prelude.Text.{codes}
use mcbenchmark.Trace.Model.{Trace, Origin}
use mcbenchmark.Scenario.{Scenario}
use mcbenchmark.Accounts.{account_name}
use mcbenchmark.Packets.Build.{offline_uuid}
use mcbenchmark.Replay.Runner.{Plan, choose_trace, play_for, plan_of, build_session}
use mcbenchmark.Nbt.Model.{Fields}
use mcbenchmark.PlayerData.Accounts.{Inputs, at_round, account_origin, account_uuid}

-- `loadTraces`: the origins in the order of the manifest
unfoldable pub origins_of : List Trace → List (Option Origin)
origins_of [] = []
origins_of (t ∷ traces) = t.origin ∷ origins_of traces

length-origins_of : (traces : List Trace) → length (origins_of traces) ≡ length traces
unfolding origins_of
length-origins_of [] = refl
length-origins_of (t ∷ traces) = ap suc (length-origins_of traces)

get_elem?-origins_of :
    (traces : List Trace) (i : ℕ) {t : Trace}
    → get_elem? traces i ≡ some t
    → get_elem? (origins_of traces) i ≡ some t.origin
unfolding origins_of
get_elem?-origins_of [] i h = cc h
get_elem?-origins_of (t ∷ traces) zero h = ap (λ (t : Trace). some t.origin) (some_eq h)
get_elem?-origins_of (t ∷ traces) (suc i) h = get_elem?-origins_of traces i h

-- The trace that is listed for an index, as the runner and the placement count it.
choose_trace_listed :
    (sc : Scenario) (traces : List Trace) (i rng : ℕ)
    → bytes_eq sc.strategy (codes "random") ≡ false
    → (choose_trace sc traces i rng).0 ≡ i % length traces
unfolding choose_trace
choose_trace_listed sc traces i rng listed = rw (choose_trace, listed) refl

account_origin-origins_of :
    (traces : List Trace) (fallback : Option Origin) (i : ℕ) {tr : Trace} {o : Origin}
    → get_elem? traces (i % length traces) ≡ some tr
    → tr.origin ≡ some o
    → account_origin (origins_of traces) fallback i ≡ some o
unfolding account_origin at_round
account_origin-origins_of traces fallback i {tr} {o} found from =
    let here : get_elem? (origins_of traces) (i % length traces) ≡ some (some o) =
      get_elem?-origins_of traces (i % length traces) found ∙ ap some from in
    rw (account_origin, at_round, length-origins_of traces, here) refl

-- Unless traces are chosen at random, the session of an index begins where the account of that index is
-- placed, and logs in under the UUID that the account's file is named for, where the prefix of both is
-- the same and the trace has an origin.
pub account_origin-build_session :
    (md5 : List ℕ → List ℕ) (read_file : List ℕ → Option Fields) (inp : Inputs) (sc : Scenario)
    (traces : List Trace) (until : ℤ) (i rng : ℕ) {p : Plan × ℕ} {o : Origin}
    → bytes_eq sc.strategy (codes "random") ≡ false
    → inp.prefix ≡ sc.username_prefix
    → inp.origins ≡ origins_of traces
    → build_session sc traces until i rng ≡ some p
    → p.0.origin ≡ some o
    → (account_origin inp.origins inp.fallback i ≡ some o)
      × (account_uuid md5 read_file inp i ≡ offline_uuid md5 p.0.username)
unfolding build_session plan_of account_uuid
account_origin-build_session md5 read_file inp sc traces until i rng {p} {o} listed same given h
      at =
    let chosen = choose_trace sc traces i rng in
    let time = play_for sc until chosen.1 in
    let (tr, found, built) = some-of_step _ (λ tr. some (plan_of sc i time.0 tr, time.1)) h in
    let plan : plan_of sc i time.0 tr ≡ p.0 = ap (λ (q : Plan × ℕ). q.0) (some_eq built) in
    let listed_at = ap (get_elem? traces) (sym (choose_trace_listed sc traces i rng listed)) in
    (
      rw given (
          account_origin-origins_of traces inp.fallback i (listed_at ∙ found)
            (ap (λ (q : Plan). q.origin) plan ∙ at)),
      ap (λ t. offline_uuid md5 (account_name t i)) same
          ∙ ap (λ (q : Plan). offline_uuid md5 q.username) plan,
    )
