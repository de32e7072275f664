-- ===== src/Scenario/Checks.antt =====
-- go/internal/scenario/scenario.go: what a scenario that `Load` accepts is known to be.
use mcbenchmark.Prelude.{
  ℕ, ◌≤◌, ◌≡◌, ◌⊎◌, ◌∙◌, ap, refl, List, [], ◌∷◌, length, Bool, true, false, not, ltb, ltb→le,
  le→ltb, bytes_eq_iff, All, if◌then◌else◌, arith,
}
use mcbenchmark.Prelude.Int.{ℤ, pos, ◌≤ℤ◌}
use mcbenchmark.Prelude.Text.{codes}
use mcbenchmark.Scenario.{
  no_host, no_manifest, unknown_strategy, long_prefix, negative_count, Refusal, Scenario, Loaded,
  ok, err, or_number, or_text, with_defaults, is_strategy, is_empty, counts, some_negative,
  validate, load,
}

-- A scenario that a run can be started with.
pub record IsRunnable (s : Scenario) : Type 0 where
  pub has_host : is_empty s.host ≡ false
  pub has_manifest : is_empty s.manifest ≡ false
  pub strategy_known : (s.strategy ≡ codes "round_robin") ⊎ (s.strategy ≡ codes "random")
  pub prefix_from : 1 ≤ length s.username_prefix
  pub prefix_to : length s.username_prefix ≤ 11
  pub counts_from : All (λ n. pos 0 ≤ℤ n) (counts s)
  pub players_from : pos 1 ≤ℤ s.target_players
  pub initial_from : pos 1 ≤ℤ s.initial_players
  pub interval_from : pos 1 ≤ℤ s.interval_seconds
  pub duration_from : pos 1 ≤ℤ s.max_duration_minutes
  pub rate_from : pos 1 ≤ℤ s.connect_per_second

-- What `validate` asks for.
record IsValid (s : Scenario) : Type 0 where
  host : is_empty s.host ≡ false
  manifest : is_empty s.manifest ≡ false
  strategy : is_strategy s.strategy ≡ true
  prefix : length s.username_prefix ≤ 11
  counted : some_negative (counts s) ≡ false

guard :
    (b : Bool) (e : Refusal) (rest : Loaded) {t : Scenario}
    → (if b then err e else rest) ≡ ok t
    → (b ≡ false) × (rest ≡ ok t)
guard true e rest h = cc h
guard false e rest h = (refl, h)

ok_eq : {s t : Scenario} → ok s ≡ ok t → s ≡ t
ok_eq h = cc h

not-false : (b : Bool) → not b ≡ false → b ≡ true
not-false b h = ground arith

validate-IsValid : (s t : Scenario) → validate s ≡ ok t → (s ≡ t) × IsValid s
unfolding validate
validate-IsValid s t h =
    let a = guard (is_empty s.host) no_host _ h in
    let b = guard (is_empty s.manifest) no_manifest _ a.1 in
    let c = guard (not (is_strategy s.strategy)) unknown_strategy _ b.1 in
    let d = guard (ltb 11 (length s.username_prefix)) long_prefix _ c.1 in
    let e = guard (some_negative (counts s)) negative_count _ d.1 in
    (
      ok_eq e.1,
      record {
        host = a.0;
        manifest = b.0;
        strategy = not-false (is_strategy s.strategy) c.0;
        prefix = ltb→le 11 (length s.username_prefix) d.0;
        counted = e.0;
      },
    )

validate-ok : (s : Scenario) → IsValid s → validate s ≡ ok s
unfolding validate
validate-ok s v =
    rw (v.host, v.manifest, v.strategy, le→ltb 11 (length s.username_prefix) v.prefix, v.counted)
      refl

some_negative_lem : (ns : List ℤ) → some_negative ns ≡ false → All (λ n. pos 0 ≤ℤ n) ns
unfolding some_negative
some_negative_lem [] h = tt
some_negative_lem (n ∷ ns) h = ground (arith, some_negative_lem ns)

is_strategy_lem :
    (s : List ℕ) → is_strategy s ≡ true → (s ≡ codes "round_robin") ⊎ (s ≡ codes "random")
unfolding is_strategy
is_strategy_lem s h =
    ground (arith, bytes_eq_iff s (codes "round_robin"), bytes_eq_iff s (codes "random"))

or_number-pos : (n d : ℤ) → pos 1 ≤ℤ d → pos 0 ≤ℤ or_number n d → pos 1 ≤ℤ or_number n d
unfolding or_number
or_number-pos n d e h = ground arith

or_number_idem : (n d : ℤ) → or_number (or_number n d) d ≡ or_number n d
unfolding or_number
or_number_idem n d = ground arith

or_number_kept : (n d : ℤ) → pos 1 ≤ℤ n → or_number n d ≡ n
unfolding or_number
or_number_kept n d h = ground arith

or_text_idem : (s d : List ℕ) → or_text (or_text s d) d ≡ or_text s d
unfolding or_text
or_text_idem [] [] = refl
or_text_idem [] (c ∷ d) = refl
or_text_idem (c ∷ s) d = refl

or_text-pos : (s d : List ℕ) → 1 ≤ length d → 1 ≤ length (or_text s d)
unfolding or_text
or_text-pos [] d h = h
or_text-pos (c ∷ s) d h = omega arith

with_defaults-IsRunnable : (s : Scenario) → IsValid (with_defaults s) → IsRunnable (with_defaults s)
unfolding with_defaults
with_defaults-IsRunnable s v =
    let ns = some_negative_lem (counts (with_defaults s)) v.counted in
    let players = or_number-pos s.target_players (pos 1) (omega arith) ns.0 in
    record {
      has_host = v.host;
      has_manifest = v.manifest;
      strategy_known = is_strategy_lem _ v.strategy;
      prefix_from = or_text-pos s.username_prefix (codes "BENCH_") (omega arith);
      prefix_to = v.prefix;
      counts_from = ns;
      players_from = players;
      initial_from = or_number-pos s.initial_players _ players ns.1.0;
      interval_from = or_number-pos s.interval_seconds (pos 5) (omega arith) ns.1.1.1.0;
      duration_from = or_number-pos s.max_duration_minutes (pos 60) (omega arith) ns.1.1.1.1.0;
      rate_from = or_number-pos s.connect_per_second (pos 20) (omega arith) ns.1.1.1.1.1.0;
    }

with_defaults_idem :
    (s : Scenario)
    → IsRunnable (with_defaults s)
    → with_defaults (with_defaults s) ≡ with_defaults s
unfolding with_defaults
with_defaults_idem s r =
    rw
      (
        or_number_idem s.port (pos 25565),
        or_number_idem s.version (pos 775),
        or_text_idem s.strategy (codes "round_robin"),
        or_text_idem s.trace_reuse (codes "allow_with_jitter"),
        or_text_idem s.username_prefix (codes "BENCH_"),
        or_number_idem s.target_players (pos 1),
        or_number_kept _ (or_number s.target_players (pos 1)) r.initial_from,
        or_number_idem s.interval_seconds (pos 5),
        or_number_idem s.max_duration_minutes (pos 60),
        or_number_idem s.connect_per_second (pos 20),
      )
      refl

-- What `Load` returns can be run: it has a host and a manifest, a strategy that is known, a prefix that
-- leaves room for the index, no negative count, and at least one player, minute, second and connection
-- a second; and to load it again changes nothing.
pub load-IsRunnable : (s t : Scenario) → load s ≡ ok t → IsRunnable t × (load t ≡ ok t)
unfolding load
load-IsRunnable s t h =
    let v = validate-IsValid (with_defaults s) t h in
    let r = with_defaults-IsRunnable s v.1 in
    let again = ap validate (with_defaults_idem s r) ∙ validate-ok (with_defaults s) v.1 in
    rw (← v.0) (r, again)
