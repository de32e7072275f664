-- ===== src/Scenario.antt =====
-- go/internal/scenario/scenario.go: a scenario, as the YAML library leaves it in the structure, and what
-- `Load` makes of it.
pub mod Checks
use mcbenchmark.Prelude.{
  ℕ, List, [], ◌∷◌, length, Bool, true, false, ◌||◌, not, if◌then◌else◌, ltb, bytes_eq,
}
use mcbenchmark.Prelude.Int.{ℤ, pos, ltb_ℤ, ◌==ℤ◌}
use mcbenchmark.Prelude.Text.{codes}

pub record Scenario : Type 0 where
  pub name : List ℕ
  pub host : List ℕ
  pub port : ℤ
  pub version : ℤ
  pub manifest : List ℕ
  pub strategy : List ℕ
  pub per_session_minutes : ℤ
  pub trace_reuse : List ℕ
  pub target_players : ℤ
  pub initial_players : ℤ
  pub add_per_second : ℤ
  pub interval_seconds : ℤ
  pub max_duration_minutes : ℤ
  pub connect_per_second : ℤ
  pub username_prefix : List ℕ
  pub enable_flight : Bool
  pub output_dir : List ℕ

pub data Refusal : Type 0 where
  no_host no_manifest unknown_strategy long_prefix : Refusal
  -- A count below 0, in the order that `Load` looks at them.
  negative_count : Refusal

pub data Loaded : Type 0 where
  ok : Scenario → Loaded
  err : Refusal → Loaded

-- `if n == 0 { n = d }`
unfoldable pub or_number : ℤ → ℤ → ℤ
or_number n d = if n ==ℤ pos 0 then d else n

-- `if s == "" { s = d }`
unfoldable pub or_text : List ℕ → List ℕ → List ℕ
or_text [] d = d
or_text (c ∷ s) d = c ∷ s

unfoldable pub with_defaults : Scenario → Scenario
unfolding or_number or_text
with_defaults s =
    let target = or_number s.target_players (pos 1) in
    record s {
      port = or_number s.port (pos 25565);
      version = or_number s.version (pos 775);
      strategy = or_text s.strategy (codes "round_robin");
      trace_reuse = or_text s.trace_reuse (codes "allow_with_jitter");
      target_players = target;
      initial_players = or_number s.initial_players target;
      interval_seconds = or_number s.interval_seconds (pos 5);
      max_duration_minutes = or_number s.max_duration_minutes (pos 60);
      connect_per_second = or_number s.connect_per_second (pos 20);
      username_prefix = or_text s.username_prefix (codes "BENCH_");
    }

abbrev pub is_empty : List ℕ → Bool
is_empty [] = true
is_empty (c ∷ s) = false

unfoldable pub is_strategy : List ℕ → Bool
unfolding bytes_eq
is_strategy s = bytes_eq s (codes "round_robin") || bytes_eq s (codes "random")

-- The counts that must not be negative.
abbrev pub counts : Scenario → List ℤ
counts s =
    s.target_players ∷ s.initial_players ∷ s.add_per_second ∷ s.interval_seconds
    ∷ s.max_duration_minutes ∷ s.connect_per_second ∷ s.per_session_minutes ∷ []

unfoldable pub some_negative : List ℤ → Bool
some_negative [] = false
some_negative (n ∷ ns) = if ltb_ℤ n (pos 0) then true else some_negative ns

unfoldable pub validate : Scenario → Loaded
unfolding is_strategy some_negative
validate s =
    if is_empty s.host
    then err no_host
    else if is_empty s.manifest
    then err no_manifest
    else if not (is_strategy s.strategy)
    then err unknown_strategy
    else if ltb 11 (length s.username_prefix)
    then err long_prefix
    else if some_negative (counts s)
    then err negative_count
    else ok s

-- `Load`, of what `yaml.Unmarshal` gave.
unfoldable pub load : Scenario → Loaded
unfolding with_defaults validate
load s = validate (with_defaults s)
