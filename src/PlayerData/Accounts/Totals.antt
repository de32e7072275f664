-- ===== src/PlayerData/Accounts/Totals.antt =====
-- go/internal/playerdata/playerdata.go: what the loop of `Run` counts and writes, and how it fits what
-- `removeAll` removes and what the runner of go/internal/replay replays.
use mcbenchmark.Prelude.{
  ℕ, zero, suc, ◌+◌, ◌<◌, ◌≡◌, List, [], ◌∷◌, ◌++◌, length, get_elem?, All, false, Option, none,
  some,
}
use mcbenchmark.Prelude.Text.{codes}
use mcbenchmark.Nbt.Model.{Fields}
use mcbenchmark.PlayerData.Accounts.{
  Inputs, Tally, account_origin, account_base, contents, removed_paths,
}

module _ (md5 : List ℕ → List ℕ) (read_file : List ℕ → Option Fields) (inp : Inputs) where
  -- The files of the accounts below `i`, the last first: one for each account that has a position, with
  -- the contents of that account.
  unfoldable pub own_files : ℕ → List (List ℕ × Fields)
  own_files zero = []
  own_files (suc i) = elim (account_origin inp.origins inp.fallback i) [
    | none ↦ own_files i
    | some o ↦ elim (contents md5 read_file inp i o) [
      | none ↦ own_files i
      | some root ↦ (account_base md5 read_file inp i ++ codes ".dat", root) ∷ own_files i
    ]
  ]

module _ (md5 : List ℕ → List ℕ) (read_file : List ℕ → Option Fields) (inp : Inputs)
    (wet : inp.dry_run ≡ false) (total : ℕ) where
  -- The file of one of the accounts of the run.
  abbrev IsOwn : List ℕ × Fields → Type 0
  IsOwn f = (j : ℕ) × (j < total) × (f.0 ≡ account_base md5 read_file inp j ++ codes ".dat")

  -- Each account so far is written or skipped, and what is written is a file of its own.
  abbrev Counts : ℕ → Tally → Type 0
  Counts i t =
      (t.written + t.skipped ≡ i)
      × (length t.files ≡ t.written)
      × All IsOwn t.files
      × (t.files ≡ own_files md5 read_file inp i)

module _ (md5 : List ℕ → List ℕ) (read_file : List ℕ → Option Fields) (inp : Inputs) (n : ℕ) where
  -- The path is one of those that removing the n accounts removes.
  abbrev pub IsRemoved : List ℕ × Fields → Type 0
  IsRemoved f = (j : ℕ) × (get_elem? (removed_paths md5 read_file inp n 0) j ≡ some (f.0))
