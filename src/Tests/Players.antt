-- ===== src/Tests/Players.antt =====
-- Two accounts, a scenario for them and the files of two real players, at which the theorems on
-- accounts, launches and player data apply.
use mcbenchmark.Prelude.{
  drop, ap, ℕ, ◌≤◌, ◌+◌, ◌*◌, ◌++◌, ◌≡◌, refl, List, [], ◌∷◌, length, get_elem?, bytes_eq, Option,
  none, some, true, false, arith, if◌then◌else◌, ◌≢◌, ◌↔◌, ◌==◌,
}
use Prim.Native.Nat.{min}
use mcbenchmark.Prelude.Int.{ℤ, pos}
use mcbenchmark.Prelude.Text.{codes}
use mcbenchmark.Wire.Reading.{ok as parsed}
use mcbenchmark.Trace.Model.{Trace, Origin, IsOrigin}
use mcbenchmark.Payload.Inventory.{InventoryPayload}
use mcbenchmark.Packets.Build.{offline_uuid}
use mcbenchmark.Scenario.{Scenario, ok, load}
use mcbenchmark.Scenario.Checks.{IsRunnable, load-IsRunnable}
use mcbenchmark.Replay.Runner.{Launched, build_session, ramp, not_below_zero, plan_of, seed}
use mcbenchmark.Replay.Runner.Gate.{interval_of, releases, new_rate_gate, wait, releases-spaced}
use mcbenchmark.Replay.Runner.Ramp.{ticks, ramp-distinct, ramp-ticks}
use mcbenchmark.Nbt.Model.{Fields, float, int_array, text}
use mcbenchmark.Nbt.Writing.{put_root}
use mcbenchmark.Nbt.Reading.{parse_root}
use mcbenchmark.PlayerData.Fields.{fields, get_field}
use mcbenchmark.PlayerData.Slots.{nbt_slot, is_carried, restored_slot, restored_slot-eq}
use mcbenchmark.PlayerData.Uuid.{uuid_ints, parse_uuid, format_uuid, parse_uuid-format_uuid}
use mcbenchmark.PlayerData.Files.{player_nbt, imported_nbt}
use mcbenchmark.PlayerData.Written.{IsStored}
use mcbenchmark.PlayerData.Restored.{IsRestored, parse_root-IsRestored}
use mcbenchmark.PlayerData.Revived.{is_above_zero, twenty}
use mcbenchmark.PlayerData.Imported.{imported_nbt-kept, imported_nbt-alive}
use mcbenchmark.PlayerData.Imports.{ImportSource, assign_imports}
use mcbenchmark.PlayerData.Imports.Assigned.{assign_imports-distinct, assign_imports-full}
use mcbenchmark.PlayerData.Accounts.{Inputs, Tally, account_origin, account_uuid, account_base}
use mcbenchmark.PlayerData.Accounts.Replayed.{origins_of, account_origin-build_session}

-- Two players, from YAML that leaves most of it out.
abbrev written : Scenario
written = record {
  name = codes "demo";
  host = codes "localhost";
  port = pos 0;
  version = pos 0;
  manifest = codes "traces/manifest.json";
  strategy = [];
  per_session_minutes = pos 0;
  trace_reuse = [];
  target_players = pos 2;
  initial_players = pos 1;
  add_per_second = pos 1;
  interval_seconds = pos 0;
  max_duration_minutes = pos 0;
  connect_per_second = pos 0;
  username_prefix = [];
  enable_flight = false;
  output_dir = [];
}

abbrev demo : Scenario
demo = record written {
  port = pos 25565;
  version = pos 775;
  strategy = codes "round_robin";
  trace_reuse = codes "allow_with_jitter";
  interval_seconds = pos 5;
  max_duration_minutes = pos 60;
  connect_per_second = pos 20;
  username_prefix = codes "BENCH_";
}

demo_loaded : load written ≡ ok demo
unfolding load
demo_loaded = refl

load-IsRunnable_example : IsRunnable demo × (load demo ≡ ok demo)
load-IsRunnable_example = load-IsRunnable written demo demo_loaded

-- Twenty launches a second: the third call is early, and its timer late.
abbrev calls : List (ℕ × ℕ)
calls = (1000, 0) ∷ (1001, 0) ∷ (1002, 7) ∷ []

first_release : get_elem? (releases (new_rate_gate (pos 20)) calls) 0 ≡ some 1000
unfolding releases new_rate_gate wait interval_of
first_release = refl

third_release : get_elem? (releases (new_rate_gate (pos 20)) calls) 2 ≡ some 100001007
unfolding releases new_rate_gate wait interval_of
third_release = refl

releases-spaced_example : 1000 + 2 * interval_of (pos 20) ≤ 100001007
releases-spaced_example = releases-spaced (pos 20) calls 2 first_release third_release

restored_slot-eq_example :
    (restored_slot (pos 36) ≡ (if is_carried (pos 36) then some (pos 36) else none))
    × ((nbt_slot (pos 36) ≡ none) ↔ (is_carried (pos 36) ≡ false))
restored_slot-eq_example = restored_slot-eq (pos 36)

abbrev uuid : List ℕ
uuid = 1 ∷ 35 ∷ 69 ∷ 103 ∷ 137 ∷ 171 ∷ 205 ∷ 239 ∷ 0 ∷ 255 ∷ 16 ∷ 9 ∷ 8 ∷ 7 ∷ 6 ∷ 5 ∷ []

parse_uuid-format_uuid_example : parse_uuid (format_uuid uuid) ≡ some uuid
parse_uuid-format_uuid_example = parse_uuid-format_uuid uuid (omega arith) (ground arith)

abbrev spot : Origin
spot = record {
  place = record { x = 4607182418800017408; y = 4634204016564240384; z = 0; yaw = 0; pitch = 0 };
  dimension = pos 1;
  exact = true;
}

spot-IsOrigin : IsOrigin spot
spot-IsOrigin = record {
  place_fits = record {
    x_fits = omega arith;
    y_fits = omega arith;
    z_fits = omega arith;
    yaw_fits = omega arith;
    pitch_fits = omega arith;
  };
  dimension_fits = omega arith;
}

abbrev helmet : InventoryPayload
helmet = record {
  selected_slot = pos 0;
  items = record { slot = pos 39; id = codes "minecraft:iron_helmet"; count = pos 1 } ∷ [];
}

helmet-IsStored : IsStored helmet
helmet-IsStored = record {
  selected_fits = omega arith;
  size_fits = omega arith;
  items_fit = ((omega arith, omega arith), tt);
}

parse_root-IsRestored_example :
    (fs : Fields) × (parse_root (put_root (player_nbt (pos 4189) spot (some helmet) (pos 0) uuid))
      ≡ parsed fs)
    × IsRestored (pos 4189) spot (some helmet) (pos 0) uuid fs
parse_root-IsRestored_example =
    parse_root-IsRestored (pos 4189) spot (some helmet) (pos 0) uuid (omega arith) spot-IsOrigin
      helmet-IsStored (omega arith) (omega arith)

-- Data of a player who died in a boat.
abbrev dead : Fields
dead =
    fields
      ((codes "Health", float 0) ∷ (codes "XpLevel", float 5) ∷ (codes "RootVehicle", text []) ∷ [])

imported_nbt-kept_example :
    (get_field (imported_nbt dead (some spot) uuid) (codes "XpLevel")
      ≡ get_field dead (codes "XpLevel"))
    × (get_field (imported_nbt dead (some spot) uuid) (codes "UUID")
        ≡ some (int_array (uuid_ints uuid)))
    × (get_field (imported_nbt dead (some spot) uuid) (codes "DeathTime") ≡ none)
    × (get_field (imported_nbt dead (some spot) uuid) (codes "RootVehicle") ≡ none)
    × (get_field (imported_nbt dead (some spot) uuid) (codes "Passengers") ≡ none)
unfolding bytes_eq
imported_nbt-kept_example =
    imported_nbt-kept dead (some spot) uuid (codes "XpLevel")
      (refl, (refl, (refl, (refl, (refl, tt))))) (refl, (refl, (refl, (refl, (refl, tt)))))

imported_nbt-alive_example :
    ((u : ℕ)
      → get_field dead (codes "Health") ≡ some (float u)
      → get_field (imported_nbt dead (some spot) uuid) (codes "Health")
        ≡ some (float (if is_above_zero u then u else twenty)))
    × (((u : ℕ) → get_field dead (codes "Health") ≢ some (float u))
        → get_field (imported_nbt dead (some spot) uuid) (codes "Health")
          ≡ get_field dead (codes "Health"))
imported_nbt-alive_example = imported_nbt-alive dead (some spot) uuid

-- Two files and three traces; the second trace is that of the first file's player.
abbrev file_of : List ℕ → ImportSource
file_of hash = record { path = hash; uuid = uuid; hash = hash }

abbrev sources : List ImportSource
sources = file_of (codes "ab") ∷ file_of (codes "cd") ∷ []

abbrev hashes : List (List ℕ)
hashes = codes "ff" ∷ codes "ab" ∷ codes "ab" ∷ []

assigned : assign_imports (λ s. s) hashes sources ≡ some 1 ∷ some 0 ∷ none ∷ []
unfolding assign_imports
assigned = refl

assign_imports-distinct_example : ◌≡◌ {A = ℕ} 1 1
assign_imports-distinct_example =
    assign_imports-distinct (λ s. s) hashes sources 1 1 0 (ap (λ out. get_elem? out 1) assigned)
      (ap (λ out. get_elem? out 1) assigned)

assign_imports-full_example :
    (k : ℕ) × (get_elem? (assign_imports (λ s. s) hashes sources) k ≡ some (some 1))
assign_imports-full_example =
    assign_imports-full (λ s. s) hashes sources 2 1 (ap (λ out. get_elem? out 2) assigned)
      (omega arith)

abbrev trace : Trace
trace = record {
  schema_version = 3;
  protocol_version = 775;
  world_profile_id = [];
  trace_id = codes "t0";
  duration_us = pos 1000;
  origin = some spot;
  inventory = some helmet;
  events = [];
}

-- Each trace is played once, until the deadline 5 ns from each launch.
abbrev once : Scenario
once = record demo { trace_reuse = codes "once"; username_prefix = codes "B" }

abbrev untils : ℕ → ℤ
untils i = pos 5

abbrev launched : Launched
launched = record {
  sessions = plan_of once 1 (pos 5) trace ∷ plan_of once 0 (pos 5) trace ∷ [];
  rng = seed;
}

ramp_ran : ramp once (trace ∷ []) untils (ticks 1) ≡ some launched
unfolding ramp ticks
ramp_ran = refl

ramp-distinct_example :
    (length launched.sessions ≤ not_below_zero once.target_players) × ◌≡◌ {A = ℕ} 1 1
ramp-distinct_example =
    ramp-distinct once (trace ∷ []) untils (ticks 1) 1 1 (omega arith) ramp_ran refl refl refl

ramp-ticks_example :
    (l : Launched) × (ramp once (trace ∷ []) untils (ticks 1) ≡ some l)
    × (length l.sessions
        ≡ min (not_below_zero once.target_players) (
            not_below_zero once.initial_players
            + 1 * (if 1 * 5 == 0 then not_below_zero once.target_players else 1 * 5)))
ramp-ticks_example =
    ramp-ticks once (trace ∷ []) untils 1 1 5 (omega arith) refl refl (omega arith) (omega arith)
      (omega arith) (omega arith)

abbrev md5 : List ℕ → List ℕ
md5 s = drop 4 s

abbrev no_file : List ℕ → Option Fields
no_file path = none

-- The second trace has no origin.
abbrev inputs : Inputs
inputs = record {
  dir = codes "world";
  prefix = codes "B";
  game_mode = pos 0;
  data_version = pos 4189;
  dry_run = false;
  fallback = none;
  origins = some spot ∷ none ∷ [];
  inventories = some helmet ∷ [];
  imports = [];
}

abbrev first_file : List ℕ × Fields
first_file = (
  account_base md5 no_file inputs 0 ++ codes ".dat",
  player_nbt (pos 4189) spot (some helmet) (pos 0) (account_uuid md5 no_file inputs 0),
)

abbrev tally : Tally
tally = record { written = 1; skipped = 1; inexact = 0; imported = 0; files = first_file ∷ [] }

session_built :
    build_session once (trace ∷ []) (pos 5) 0 seed ≡ some (plan_of once 0 (pos 5) trace, seed)
unfolding build_session
session_built = refl

listed : bytes_eq once.strategy (codes "random") ≡ false
unfolding bytes_eq
listed = refl

account_origin-build_session_example :
    (account_origin (origins_of (trace ∷ [])) none 0 ≡ some spot)
    × (account_uuid md5 no_file (record inputs { origins = origins_of (trace ∷ []) }) 0
        ≡ offline_uuid md5 (plan_of once 0 (pos 5) trace).username)
account_origin-build_session_example =
    account_origin-build_session md5 no_file (record inputs { origins = origins_of (trace ∷ []) })
      once (trace ∷ []) (pos 5) 0 seed listed refl refl session_built plan_origin
  where
    plan_origin : (plan_of once 0 (pos 5) trace).origin ≡ some spot
    plan_origin = unfold plan_of in refl
