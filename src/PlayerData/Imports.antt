-- ===== src/PlayerData/Imports.antt =====
-- go/internal/playerdata/import.go: the data files of real players, and which trace is given which.
-- `sha256` and `strings.ToLower` are of Go's standard library.
pub mod Handed
pub mod Assigned
use mcbenchmark.Prelude.{
  ℕ, zero, suc, ◌+◌, ◌-◌, List, [], ◌∷◌, ◌++◌, length, take, drop, Bool, true, false, ◌&&◌, not,
  Option, none, some, if◌then◌else◌, ltb, bytes_eq,
}
use mcbenchmark.Prelude.Text.{codes}
use mcbenchmark.PlayerData.Uuid.{parse_uuid, to_hex}

pub record ImportSource : Type 0 where
  pub path : List ℕ
  pub uuid : List ℕ
  pub hash : List ℕ

-- `hashPlayer`
unfoldable pub hash_player : (List ℕ → List ℕ) → List ℕ → List ℕ → List ℕ
unfolding to_hex
hash_player sha256 uuid salt = to_hex (sha256 (uuid ++ salt))

-- `byUUID[u]`, where the entry read last is kept
unfoldable pub hash_in : List (List ℕ × List ℕ) → List ℕ → Option (List ℕ)
unfolding bytes_eq
hash_in [] u = none
hash_in ((other, h) ∷ entries) u = elim (hash_in entries u) [
  | some later ↦ some later
  | none ↦ if bytes_eq other u then some h else none
]

-- `strings.HasSuffix(name, ".dat")` with `TrimSuffix`: the name in front of the suffix
unfoldable pub without_dat : List ℕ → Option (List ℕ)
unfolding bytes_eq
without_dat name =
    let n = length name - 4 in
    if bytes_eq (drop n name) (codes ".dat") then some (take n name) else none

-- `loadImportDir`, of a directory's entries, each a name and whether it is a directory
module _ (sha256 : List ℕ → List ℕ) (dir salt : List ℕ) (entries_of : List (List ℕ × List ℕ)) where
  unfoldable pub import_source : List ℕ → Bool → Option ImportSource
  unfolding without_dat parse_uuid hash_in hash_player
  import_source name true = none
  import_source name false = elim (without_dat name) [
    | none ↦ none
    | some stem ↦ elim (parse_uuid stem) [
      | none ↦ none
      | some u ↦ some (record {
        path = dir ++ (b'/' ∷ name);
        uuid = u;
        hash = elim (hash_in entries_of u) [ some h ↦ h | none ↦ hash_player sha256 u salt ];
      })
    ]
  ]

  unfoldable pub load_import_dir : List (List ℕ × Bool) → List ImportSource
  unfolding import_source
  load_import_dir [] = []
  load_import_dir ((name, is_dir) ∷ entries) = elim (import_source name is_dir) [
    | none ↦ load_import_dir entries
    | some src ↦ src ∷ load_import_dir entries
  ]

-- `byHash[h]`: the last source with this hash; a source without a hash is not entered.
abbrev pub has_text : List ℕ → Bool
has_text [] = false
has_text (c ∷ s) = true

unfoldable pub by_hash : List ImportSource → ℕ → List ℕ → Option ℕ
unfolding bytes_eq
by_hash [] i h = none
by_hash (s ∷ srcs) i h = elim (by_hash srcs (suc i) h) [
  | some j ↦ some j
  | none ↦ if has_text s.hash && bytes_eq s.hash h then some i else none
]

-- `used[j]` and `used[j] = true`
unfoldable pub is_used : List Bool → ℕ → Bool
is_used [] j = false
is_used (b ∷ used) zero = b
is_used (b ∷ used) (suc j) = is_used used j

unfoldable pub set_used : List Bool → ℕ → List Bool
set_used [] j = []
set_used (b ∷ used) zero = true ∷ used
set_used (b ∷ used) (suc j) = b ∷ set_used used j

unfoldable pub unused : List ImportSource → List Bool
unused [] = []
unused (s ∷ srcs) = false ∷ unused srcs

-- `out[i]`, the index of the source of each trace, with what is used then
abbrev pub Given : Type 0
Given = List (Option ℕ) × List Bool

module _ (to_lower : List ℕ → List ℕ) (srcs : List ImportSource) where
  -- The source that the trace's own player left, where it is free.
  unfoldable pub own_source : List ℕ → List Bool → Option ℕ
  unfolding by_hash is_used
  own_source [] used = none
  own_source (c ∷ h) used = elim (by_hash srcs 0 (to_lower (c ∷ h))) [
    | none ↦ none
    | some j ↦ if is_used used j then none else some j
  ]

  unfoldable pub match_own : List (List ℕ) → List Bool → Given
  unfolding own_source set_used
  match_own [] used = ([], used)
  match_own (h ∷ hashes) used = elim (own_source h used) [
    | none ↦ let rest = match_own hashes used in (none ∷ rest.0, rest.1)
    | some j ↦ let rest = match_own hashes (set_used used j) in (some j ∷ rest.0, rest.1)
  ]

-- The index of the first source that is not used, where `i` is that of the head
unfoldable pub first_free : ℕ → List Bool → Option ℕ
first_free i [] = none
first_free i (true ∷ used) = first_free (suc i) used
first_free i (false ∷ used) = some i

-- The second loop, over the sources that no trace has, in order.
unfoldable pub fill : List (Option ℕ) → List Bool → ℕ → Given
unfolding first_free set_used
fill [] used next = ([], used)
fill (some j ∷ out) used next = let rest = fill out used next in (some j ∷ rest.0, rest.1)
fill (none ∷ out) used next = elim (first_free next (drop next used)) [
  | none ↦ (none ∷ out, used)
  | some j ↦ let rest = fill out (set_used used j) j in (some j ∷ rest.0, rest.1)
]

unfoldable pub assign_imports :
    (List ℕ → List ℕ) → List (List ℕ) → List ImportSource → List (Option ℕ)
unfolding match_own fill unused
assign_imports to_lower hashes srcs =
    let own = match_own to_lower srcs hashes (unused srcs) in (fill own.0 own.1 0).0
