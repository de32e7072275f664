-- ===== src/PlayerData/Accounts.antt =====
-- go/internal/playerdata/playerdata.go: `Run`, which writes a file for each account, and `removeAll`.
-- Reading a file is a parameter; writing one is taken to succeed.
pub mod Totals
pub mod Replayed
use mcbenchmark.Prelude.{
  ℕ, zero, suc, ◌+◌, ◌%◌, List, [], ◌∷◌, ◌++◌, length, get_elem?, Bool, true, false, Option, none,
  some, if◌then◌else◌, ltb, ◌==◌,
}
use mcbenchmark.Prelude.Int.{ℤ, pos, negsuc, ◌==ℤ◌}
use mcbenchmark.Prelude.Word.{i32, u32}
use mcbenchmark.Prelude.Text.{codes}
use mcbenchmark.Accounts.{account_name}
use mcbenchmark.Trace.Model.{Origin}
use mcbenchmark.Payload.Inventory.{InventoryPayload}
use mcbenchmark.Packets.Build.{offline_uuid}
use mcbenchmark.Nbt.Model.{Fields}
use mcbenchmark.PlayerData.Uuid.{format_uuid}
use mcbenchmark.PlayerData.Files.{player_nbt, imported_nbt}
use mcbenchmark.PlayerData.Imports.{ImportSource}

-- What the options and the files they name give a run.
pub record Inputs : Type 0 where
  pub dir : List ℕ
  pub prefix : List ℕ
  pub game_mode : ℤ
  pub data_version : ℤ
  pub dry_run : Bool
  pub fallback : Option Origin
  pub origins : List (Option Origin)
  pub inventories : List (Option InventoryPayload)
  pub imports : List (Option ImportSource)

-- The counters of the loop, and the files it wrote, the newest first.
pub record Tally : Type 0 where
  pub written : ℕ
  pub skipped : ℕ
  pub inexact : ℕ
  pub imported : ℕ
  pub files : List (List ℕ × Fields)

-- `failed`: an import that cannot be read ends the run, with the files that it has written.
pub data Placed : Type 0 where
  done failed : Tally → Placed

-- `xs[i%len(xs)]`, nil for an empty list
unfoldable pub at_round {ℓ} : {A : Type ℓ} → List (Option A) → ℕ → Option A
at_round xs i = elim (get_elem? xs (i % length xs)) [ none ↦ none | some a ↦ a ]

unfoldable pub account_origin : List (Option Origin) → Option Origin → ℕ → Option Origin
unfolding at_round
account_origin origins fallback i = elim (at_round origins i) [ some o ↦ some o | none ↦ fallback ]

abbrev pub no_tally : Tally
no_tally = record { written = 0; skipped = 0; inexact = 0; imported = 0; files = [] }

module _ (md5 : List ℕ → List ℕ) (read_file : List ℕ → Option Fields) (inp : Inputs) where
  unfoldable pub account_uuid : ℕ → List ℕ
  unfolding offline_uuid account_name
  account_uuid i = offline_uuid md5 (account_name inp.prefix i)

  -- The file of an account without its suffix.
  unfoldable pub account_base : ℕ → List ℕ
  unfolding format_uuid account_uuid
  account_base i = inp.dir ++ (b'/' ∷ format_uuid (account_uuid i))

  -- A real player's data, or one that is built; nothing where the data cannot be read.
  unfoldable pub contents : ℕ → Origin → Option Fields
  unfolding at_round imported_nbt player_nbt account_uuid i32 u32
  contents i o = elim (at_round inp.imports i) [
    | some src ↦ elim (read_file src.path) [
      | none ↦ none
      | some root ↦ some (imported_nbt root (some o) (account_uuid i))
    ]
    | none ↦ some (
        player_nbt inp.data_version o (at_round inp.inventories i) (i32 (u32 inp.game_mode))
          (account_uuid i))
  ]

  abbrev is_imported : ℕ → ℕ
  is_imported i = elim (at_round inp.imports i) [ some src ↦ 1 | none ↦ 0 ]

  -- One round of the loop for an account that has a position.
  unfoldable pub place_at : ℕ → Origin → Tally → Placed
  unfolding contents account_base at_round
  place_at i o t =
      let t' = record t { inexact = if o.exact then t.inexact else t.inexact + 1 } in
      if inp.dry_run then done (record t' { written = t.written + 1 }) else elim (contents i o) [
        | none ↦ failed t'
        | some root ↦ done (record t' {
          written = t.written + 1;
          imported = t.imported + is_imported i;
          files = (account_base i ++ codes ".dat", root) ∷ t.files;
        })
      ]

  unfoldable pub place_account : ℕ → Tally → Placed
  unfolding place_at account_origin
  place_account i t = elim (account_origin inp.origins inp.fallback i) [
    | none ↦ done (record t { skipped = t.skipped + 1 })
    | some o ↦ place_at i o t
  ]

  -- The loop over `n` accounts, from the account `i` on
  unfoldable pub place_accounts : ℕ → ℕ → Tally → Placed
  unfolding place_account
  place_accounts zero i t = done t
  place_accounts (suc n) i t = elim (place_account i t) [
    | failed t' ↦ failed t'
    | done t' ↦ place_accounts n (suc i) t'
  ]

  -- `removeAll`: the paths that it removes
  unfoldable pub removed_paths : ℕ → ℕ → List (List ℕ)
  unfolding account_base
  removed_paths zero i = []
  removed_paths (suc n) i =
      (account_base i ++ codes ".dat")
      ∷ (account_base i ++ codes ".dat_old")
      ∷ removed_paths n (suc i)

pub record Options : Type 0 where
  pub world : List ℕ
  pub manifest : List ℕ
  pub import_dir : List ℕ
  pub count : ℤ
  pub remove : Bool

pub data Outcome : Type 0 where
  bad_options long_prefix import_without_manifest no_positions : Outcome
  removes : List (List ℕ) → Outcome
  places : Placed → Outcome

abbrev is_empty : List ℕ → Bool
is_empty [] = true
is_empty (c ∷ s) = false

abbrev has_positions : List (Option Origin) → Option Origin → Bool
has_positions [] none = false
has_positions [] (some o) = true
has_positions (t ∷ origins) fallback = true

-- `Run`, with what it reads from the files of its options
unfoldable pub run : (List ℕ → List ℕ) → (List ℕ → Option Fields) → Options → Inputs → Outcome
unfolding place_accounts removed_paths
run md5 read_file o inp = elim o.count [
  | negsuc n ↦ bad_options
  | pos n ↦
      if is_empty o.world
      then bad_options
      else if n == 0
      then bad_options
      else if ltb 11 (length inp.prefix)
      then long_prefix
      else if o.remove
      then removes (removed_paths md5 read_file inp n 0)
      else if (if is_empty o.import_dir then false else is_empty o.manifest)
      then import_without_manifest
      else if has_positions inp.origins inp.fallback
      then places (place_accounts md5 read_file inp n 0 no_tally)
      else no_positions
]
