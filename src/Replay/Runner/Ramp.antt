-- ===== src/Replay/Runner/Ramp.antt =====
-- go/internal/replay/runner.go: how many sessions the ramp launches, and under which names.
use Prim.Native.Nat.{min}
use mcbenchmark.Prelude.{
  ℕ, zero, suc, ◌+◌, ◌*◌, ◌%◌, ◌^◌, ◌≤◌, ◌<◌, ◌≡◌, refl, sym, ap, ◌∙◌, List, [], ◌∷◌, length,
  get_elem?, some, none, Option, Bool, true, false, ◌==◌, if◌then◌else◌, inl, inr, Bool-cases, ltb,
  some-of_step, some_eq, ltb→lt, lt→ltb, ltb→le, arith,
}
use mcbenchmark.Prelude.Int.{ℤ, pos, ltb_ℤ}
use mcbenchmark.Prelude.Word.{mul_i64, u64, i64}
use mcbenchmark.Accounts.{account_name, account_name-distinct}
use mcbenchmark.Trace.Model.{Trace}
use mcbenchmark.Scenario.{Scenario}
use mcbenchmark.Replay.Runner.{
  Plan, Launched, Signal, tick, deadline, choose_trace, play_for, plan_of, build_session,
  launch_one, launch, ramp_loop, ramp, ramp_step, ramp_interval, not_below_zero, seed,
}

get_elem?-some {ℓ} :
    {A : Type ℓ} (xs : List A) (i : ℕ) → i < length xs → (a : A) × (get_elem? xs i ≡ some a)
get_elem?-some [] i h = absurd (omega arith)
get_elem?-some (x ∷ xs) zero h = (x, refl)
get_elem?-some (x ∷ xs) (suc i) h = get_elem?-some xs i (omega arith)

-- The chosen trace is one of the list.
choose_trace-lt :
    (sc : Scenario) (traces : List Trace) (idx rng : ℕ)
    → 1 ≤ length traces
    → (choose_trace sc traces idx rng).0 < length traces
unfolding choose_trace
choose_trace-lt sc traces idx rng h = ground arith

module _ (sc : Scenario) (traces : List Trace) (until : ℤ) where
  -- A session is built wherever there is a trace, and it has the name of its index.
  build_session-some :
      (idx rng : ℕ)
      → 1 ≤ length traces
      → (p : Plan × ℕ) × (build_session sc traces until idx rng ≡ some p)
  unfolding build_session
  build_session-some idx rng h =
      let chosen = choose_trace sc traces idx rng in
      let (tr, e) = get_elem?-some traces chosen.0 (choose_trace-lt sc traces idx rng h) in
      (
        (plan_of sc idx (play_for sc until chosen.1).0 tr, (play_for sc until chosen.1).1),
        rw (build_session, e) refl,
      )

  build_session-username :
      (idx rng : ℕ) {p : Plan × ℕ}
      → build_session sc traces until idx rng ≡ some p
      → p.0.username ≡ account_name sc.username_prefix idx
  unfolding build_session
  build_session-username idx rng h =
      let (tr, _, e) = some-of_step _ (λ tr. some (plan_of sc idx _ tr, _)) h in
      unfold plan_of in cc e

-- The sessions, the newest first, have the names of the indices below their number.
abbrev IsNumbered : List ℕ → List Plan → Type 0
IsNumbered prefix [] = Unit {0}
IsNumbered prefix (p ∷ ps) = (p.username ≡ account_name prefix (length ps)) × IsNumbered prefix ps

username_at :
    (prefix : List ℕ) (ps : List Plan) (i : ℕ) {p : Plan}
    → IsNumbered prefix ps
    → get_elem? ps i ≡ some p
    → (k : ℕ) × (i + k + 1 ≡ length ps) × (p.username ≡ account_name prefix k)
username_at prefix [] i n h = cc h
username_at prefix (q ∷ ps) zero n h =
    (length ps, omega arith, ap (λ (p : Plan). p.username) (sym (some_eq h)) ∙ n.0)
username_at prefix (q ∷ ps) (suc i) n h =
    let (k, e, name) = username_at prefix ps i n.1 h in (k, omega arith, name)

-- k ticks, and the deadline not reached
unfoldable pub ticks : ℕ → List Signal
ticks zero = []
ticks (suc k) = tick ∷ ticks k

module _ (sc : Scenario) (traces : List Trace) (untils : ℕ → ℤ) (target : ℕ) where
  -- Names by index, and no more than the target.
  abbrev IsLaunched : Launched → Type 0
  IsLaunched l = IsNumbered sc.username_prefix l.sessions × (length l.sessions ≤ target)

  launch_one-IsLaunched :
      (l l' : Launched)
      → length l.sessions < target
      → launch_one sc traces untils l ≡ some l'
      → IsLaunched l
      → IsLaunched l'
  unfolding launch_one
  launch_one-IsLaunched l l' below h n =
      let (p, b, e) =
        some-of_step _ (λ (p : Plan × ℕ). some (record { sessions = p.0 ∷ l.sessions; rng = p.1 }))
          h in
      let name =
        build_session-username sc traces (untils (length l.sessions)) (length l.sessions) l.rng b in
      rw (← some_eq e) ((name, n.0), omega arith)

  launch-IsLaunched :
      (n : ℕ) (l l' : Launched)
      → launch sc traces untils target n l ≡ some l'
      → IsLaunched l
      → IsLaunched l'
  unfolding launch
  launch-IsLaunched zero l l' h k = rw (← some_eq h) k
  launch-IsLaunched (suc n) l l' h k = elim (Bool-cases (ltb (length l.sessions) target)) [
    | inl more ↦
        let (m, one, rest) =
          some-of_step _ (launch sc traces untils target n) (rw (launch, more) at h) in
        launch-IsLaunched n m l' rest (launch_one-IsLaunched l m (ltb→lt _ _ more) one k)
    | inr full ↦ rw (← some_eq (rw (launch, full) at h)) k
  ]

  ramp_loop-IsLaunched :
      (step : ℕ) (es : List Signal) (l l' : Launched)
      → ramp_loop sc traces untils target step es l ≡ some l'
      → IsLaunched l
      → IsLaunched l'
  unfolding ramp_loop
  ramp_loop-IsLaunched step [] l l' h k = rw (← some_eq h) k
  ramp_loop-IsLaunched step (deadline ∷ es) l l' h k = rw (← some_eq h) k
  ramp_loop-IsLaunched step (tick ∷ es) l l' h k =
      elim (Bool-cases (ltb (length l.sessions) target)) [
        | inr full ↦ rw (← some_eq (rw (ramp_loop, full) at h)) k
        | inl more ↦
            let (m, some_launched, rest) =
              some-of_step _ (ramp_loop sc traces untils target step es)
                (rw (ramp_loop, more) at h) in
            ramp_loop-IsLaunched step es m l' rest (launch-IsLaunched step l m some_launched k)
      ]

  launch_one-some :
      (l : Launched)
      → 1 ≤ length traces
      → (l' : Launched) × (launch_one sc traces untils l ≡ some l')
        × (length l'.sessions ≡ suc (length l.sessions))
  unfolding launch_one
  launch_one-some l h =
      let (p, e) =
        build_session-some sc traces (untils (length l.sessions)) (length l.sessions) l.rng h in
      (record { sessions = p.0 ∷ l.sessions; rng = p.1 }, rw (launch_one, e) refl, refl)

  launch-some :
      (n : ℕ) (l : Launched)
      → 1 ≤ length traces
      → length l.sessions ≤ target
      → (l' : Launched) × (launch sc traces untils target n l ≡ some l')
        × (length l'.sessions ≡ min target (length l.sessions + n))
  unfolding launch
  launch-some zero l h le = (l, refl, omega arith)
  launch-some (suc n) l h le = elim (Bool-cases (ltb (length l.sessions) target)) [
    | inr full ↦ (l, rw (launch, full) refl, omega (arith, ltb→le _ _ full))
    | inl more ↦
        let (m, one, len) = launch_one-some l h in
        let (l', rest, all) = launch-some n m h (omega (arith, ltb→lt _ _ more)) in
        (l', rw (launch, more, one) rest, omega arith)
  ]

  ramp_loop-ticks :
      (step k : ℕ) (l : Launched)
      → 1 ≤ length traces
      → length l.sessions ≤ target
      → (l' : Launched) × (ramp_loop sc traces untils target step (ticks k) l ≡ some l')
        × (length l'.sessions ≡ min target (length l.sessions + k * step))
  unfolding ramp_loop ticks
  ramp_loop-ticks step zero l h le = (l, refl, omega arith)
  ramp_loop-ticks step (suc k) l h le = elim (Bool-cases (ltb (length l.sessions) target)) [
    | inr full ↦ (l, rw (ramp_loop, full) refl, grind (arith, ltb→le _ _ full))
    | inl more ↦
        let (m, some_launched, len) = launch-some step l h le in
        let (l', rest, all) = ramp_loop-ticks step k m h (omega arith) in
        (l', rw (ramp_loop, more, some_launched) rest, grind arith)
  ]

ticking {ℓ} :
    {A : Type ℓ} (b : Bool) {r : Option A} {a : A} → (if b then r else none) ≡ some a → r ≡ some a
ticking true h = h
ticking false h = cc h

capped : (t a x : ℕ) → min t (min t (0 + a) + x) ≡ min t (a + x)
capped t a x = omega arith

mod_small : (n : ℕ) → n < 2 ^ 64 → n % 2 ^ 64 ≡ n
mod_small n h = omega arith

small_word : (n : ℕ) → n < 2 ^ 63 → i64 n ≡ pos n
unfolding i64
small_word n h = rw (mod_small n (omega arith), lt→ltb n (2 ^ 63) h) refl

mul_i64_exact :
    (a b : ℕ) → a < 2 ^ 63 → b < 2 ^ 63 → a * b < 2 ^ 63 → mul_i64 (pos a) (pos b) ≡ pos (a * b)
unfolding mul_i64 u64
mul_i64_exact a b ha hb h =
    rw (mod_small a (omega arith), mod_small b (omega arith)) (small_word (a * b) h)

-- However the ramp runs, it launches no more sessions than the target, and no two of them under one
-- name, where the target is an int.
pub ramp-distinct :
    (sc : Scenario) (traces : List Trace) (untils : ℕ → ℤ) (es : List Signal) {l : Launched}
    (i j : ℕ) {p q : Plan}
    → not_below_zero sc.target_players < 2 ^ 63
    → ramp sc traces untils es ≡ some l
    → get_elem? l.sessions i ≡ some p
    → get_elem? l.sessions j ≡ some q
    → p.username ≡ q.username
    → (length l.sessions ≤ not_below_zero sc.target_players) × (i ≡ j)
unfolding ramp
ramp-distinct sc traces untils es {l} i j fits h hi hj same =
    let target = not_below_zero sc.target_players in
    let step = not_below_zero (ramp_step sc) in
    let (m, initial, rest) =
      some-of_step _
        (λ m.
          if ltb_ℤ (pos 0) (ramp_interval sc)
          then ramp_loop sc traces untils target step es m
          else none)
        h in
    let done =
      ramp_loop-IsLaunched sc traces untils target step es m l
        (ticking (ltb_ℤ (pos 0) (ramp_interval sc)) rest)
        (launch-IsLaunched sc traces untils target _ _ m initial (tt, omega arith)) in
    let (a, ea, na) = username_at sc.username_prefix l.sessions i done.0 hi in
    let (b, eb, nb) = username_at sc.username_prefix l.sessions j done.0 hj in
    let e =
      account_name-distinct sc.username_prefix a b (omega arith) (omega arith)
        (sym na ∙ same ∙ nb) in
    (done.1, omega arith)

-- Without an overflow, the product of the two numbers of the ramp.
ramp_step-eq :
    (sc : Scenario) (add interval : ℕ)
    → sc.add_per_second ≡ pos add
    → sc.interval_seconds ≡ pos interval
    → add * interval < 2 ^ 63
    → add < 2 ^ 63
    → interval < 2 ^ 63
    → not_below_zero (ramp_step sc)
      ≡ (if add * interval == 0 then not_below_zero sc.target_players else add * interval)
unfolding ramp_step
ramp_step-eq sc add interval ea ei small ha hi =
    rw (ea, ei, mul_i64_exact add interval ha hi small) (ground arith)

ramp_interval-positive :
    (sc : Scenario) (interval : ℕ)
    → sc.interval_seconds ≡ pos interval
    → 1 ≤ interval
    → interval ≤ 9223372036
    → ltb_ℤ (pos 0) (ramp_interval sc) ≡ true
unfolding ramp_interval
ramp_interval-positive sc interval ei from to =
    rw (ei, mul_i64_exact interval 1000000000 (omega arith) (omega arith) (omega arith))
      (lt→ltb _ _ (omega arith))

-- With a trace to replay, a ramp interval from 1 to 9,223,372,036 seconds and a step that does not
-- overflow, the ramp does not panic, and after k ticks the sessions are the initial players and k
-- steps of `add_per_second` sessions for each second of the interval, up to the target; where
-- that step is 0, the first tick launches up to the target.
pub ramp-ticks :
    (sc : Scenario) (traces : List Trace) (untils : ℕ → ℤ) (k add interval : ℕ)
    → 1 ≤ length traces
    → sc.add_per_second ≡ pos add
    → sc.interval_seconds ≡ pos interval
    → 1 ≤ interval
    → interval ≤ 9223372036
    → add < 2 ^ 63
    → add * interval < 2 ^ 63
    → (l : Launched) × (ramp sc traces untils (ticks k) ≡ some l)
      × (length l.sessions
          ≡ min (not_below_zero sc.target_players) (
              not_below_zero sc.initial_players
              + k
                * (if add * interval == 0
                    then not_below_zero sc.target_players
                    else add * interval)))
unfolding ramp
ramp-ticks sc traces untils k add interval h ea ei from to int small =
    let target = not_below_zero sc.target_players in
    let (m, initial, len) =
      launch-some sc traces untils target (not_below_zero sc.initial_players)
        (record { sessions = []; rng = seed }) h (omega arith) in
    let (l, rest, all) =
      ramp_loop-ticks sc traces untils target (not_below_zero (ramp_step sc)) k m h (omega arith) in
    let step = ramp_step-eq sc add interval ea ei small int (omega arith) in
    (
      l,
      rw (ramp, initial, ramp_interval-positive sc interval ei from to) rest,
      all ∙ rw (len, step) (capped target (not_below_zero sc.initial_players) _),
    )
