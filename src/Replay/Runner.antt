-- ===== src/Replay/Runner.antt =====
-- go/internal/replay/runner.go and util.go: the sessions that a run builds, and the ramp that launches
-- them. Durations are nanoseconds. The waits of the launches at the gate stand in Gate: they decide
-- when a session starts, and so the time that is left for it.
pub mod Gate
pub mod Ramp
use Prim.Native.Nat.{bit_xor}
use mcbenchmark.Prelude.{
  ℕ, zero, suc, ◌+◌, ◌-◌, ◌*◌, ◌/◌, ◌%◌, ◌^◌, List, [], ◌∷◌, ◌++◌, length, get_elem?, map, Option,
  none, some, Bool, true, false, not, if◌then◌else◌, ltb, ◌==◌, bytes_eq,
}
use mcbenchmark.Prelude.Int.{ℤ, pos, negsuc, ltb_ℤ}
use mcbenchmark.Prelude.Word.{to_word, i32, i64, add_i64, mul_i64, u32}
use mcbenchmark.Prelude.Text.{codes}
use mcbenchmark.Accounts.{padded, account_name}
use mcbenchmark.Trace.Model.{Trace, Origin}
use mcbenchmark.Scenario.{Scenario}
use mcbenchmark.Replay.Ledger.{Ledger, new_block_ledger}

-- `rng.next` of util.go: what it draws, and its state behind it.
unfoldable pub draw : ℕ → ℕ × ℕ
draw state =
    let s = (state + 0x9e3779b97f4a7c15) % 2 ^ 64 in
    let y = bit_xor s (s / 2 ^ 30) * 0xbf58476d1ce4e5b9 % 2 ^ 64 in
    let z = bit_xor y (y / 2 ^ 27) * 0x94d049bb133111eb % 2 ^ 64 in (bit_xor z (z / 2 ^ 31), s)

-- What `buildSession` sets in a `Session`.
pub record Plan : Type 0 where
  pub id : List ℕ
  pub username : List ℕ
  pub trace : Trace
  pub host : List ℕ
  pub port : ℕ
  pub protocol : ℤ
  pub play_for : ℤ
  pub enable_flight : Bool
  pub loop_trace : Bool
  pub origin : Option Origin
  pub blocks : Option Ledger

-- `time.Duration(n) * time.Minute`
unfoldable pub minutes : ℤ → ℤ
minutes (pos n) = i64 (n * 60000000000)
minutes (negsuc n) = i64 (to_word (2 ^ 64) (negsuc (suc n * 60000000000 - 1)))

-- `perSession`, which is the whole run where none is given
unfoldable pub per_session : Scenario → ℤ
unfolding minutes
per_session sc =
    let d = minutes sc.per_session_minutes in
    if ltb_ℤ (pos 0) d then d else minutes sc.max_duration_minutes

-- The trace of the session, and the generator behind the choice.
unfoldable pub choose_trace : Scenario → List Trace → ℕ → ℕ → ℕ × ℕ
unfolding bytes_eq draw
choose_trace sc traces idx rng =
    if bytes_eq sc.strategy (codes "random")
    then (let (v, rest) = draw rng in (v % length traces, rest))
    else (idx % length traces, rng)

-- `playFor` with its cap, `until` being `time.Until(deadline)`, and its jitter
unfoldable pub play_for : Scenario → ℤ → ℕ → ℤ × ℕ
unfolding per_session bytes_eq draw add_i64
play_for sc until rng =
    let all = per_session sc in
    let capped = if ltb_ℤ until all then until else all in
    if bytes_eq sc.trace_reuse (codes "allow_with_jitter")
    then (let (v, rest) = draw rng in (add_i64 capped (pos (v % 2000 * 1000000)), rest))
    else (capped, rng)

-- The session of `buildSession`, with the trace and the time to play that were chosen.
unfoldable pub plan_of : Scenario → ℕ → ℤ → Trace → Plan
unfolding account_name padded new_block_ledger u32 i32 bytes_eq
plan_of sc idx time tr = record {
  id = b's' ∷ padded idx;
  username = account_name sc.username_prefix idx;
  trace = tr;
  host = sc.host;
  port = to_word 65536 sc.port;
  protocol = i32 (u32 sc.version);
  play_for = time;
  enable_flight = sc.enable_flight;
  loop_trace = not (bytes_eq sc.trace_reuse (codes "once"));
  origin = tr.origin;
  blocks = new_block_ledger tr.events;
}

-- `buildSession`; `none` stands for the panic of a run without traces.
unfoldable pub build_session : Scenario → List Trace → ℤ → ℕ → ℕ → Option (Plan × ℕ)
unfolding choose_trace play_for plan_of
build_session sc traces until idx rng =
    let chosen = choose_trace sc traces idx rng in
    let time = play_for sc until chosen.1 in
    elim (get_elem? traces chosen.0) [
      | none ↦ none
      | some tr ↦ some (plan_of sc idx time.0 tr, time.1)
    ]

-- What `Run` has launched, the newest first.
pub record Launched : Type 0 where
  pub sessions : List Plan
  pub rng : ℕ

pub data Signal : Type 0 where
  tick deadline : Signal

-- `newRNG(0x9e3779b97f4a7c15)`
abbrev pub seed : ℕ
seed = 0x9e3779b97f4a7c15

-- A loop up to a negative number makes no round.
abbrev pub not_below_zero : ℤ → ℕ
not_below_zero (pos n) = n
not_below_zero (negsuc n) = 0

-- `time.Duration(sc.Load.Ramp.IntervalSeconds) * time.Second`
unfoldable pub ramp_interval : Scenario → ℤ
unfolding mul_i64
ramp_interval sc = mul_i64 sc.interval_seconds (pos 1000000000)

-- `rampStep`: without a ramp, straight to the target
unfoldable pub ramp_step : Scenario → ℤ
unfolding mul_i64
ramp_step sc =
    let step = mul_i64 sc.add_per_second sc.interval_seconds in
    if ltb_ℤ (pos 0) step then step else sc.target_players

-- `untils idx` is `time.Until(deadline)` when session `idx` is built.
module _ (sc : Scenario) (traces : List Trace) (untils : ℕ → ℤ) where
  unfoldable pub launch_one : Launched → Option Launched
  unfolding build_session
  launch_one l =
      elim (build_session sc traces (untils (length l.sessions)) (length l.sessions) l.rng) [
        | none ↦ none
        | some (plan, rest) ↦ some (record { sessions = plan ∷ l.sessions; rng = rest })
      ]

  -- `launch(n)` up to `target` sessions
  unfoldable pub launch : ℕ → ℕ → Launched → Option Launched
  unfolding launch_one
  launch target zero l = some l
  launch target (suc n) l = elim (ltb (length l.sessions) target) [
    | false ↦ some l
    | true ↦ elim (launch_one l) [ none ↦ none | some l' ↦ launch target n l' ]
  ]

  -- The select of the ramp, with what it receives: a tick of the ramp, or the deadline.
  unfoldable pub ramp_loop : ℕ → ℕ → List Signal → Launched → Option Launched
  unfolding launch
  ramp_loop target step [] l = some l
  -- Behind the deadline nothing is launched, and so where the target is reached.
  ramp_loop target step (deadline ∷ es) l = some l
  ramp_loop target step (tick ∷ es) l = elim (ltb (length l.sessions) target) [
    | false ↦ some l
    | true ↦ elim (launch target step l) [ none ↦ none | some l' ↦ ramp_loop target step es l' ]
  ]

  -- The ramp of `Run`: the initial players, then `rampStep` more at each tick; `time.NewTicker` panics
  -- on an interval that is not above 0.
  unfoldable pub ramp : List Signal → Option Launched
  unfolding launch ramp_loop ramp_step ramp_interval
  ramp es =
      let target = not_below_zero sc.target_players in
      elim (launch target (not_below_zero sc.initial_players)
        (record { sessions = []; rng = seed })) [
          | none ↦ none
          | some l ↦
              if ltb_ℤ (pos 0) (ramp_interval sc)
              then ramp_loop target (not_below_zero (ramp_step sc)) es l
              else none
        ]
