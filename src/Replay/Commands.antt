-- ===== src/Replay/Commands.antt =====
-- go/internal/replay/dispatch.go: `expandCommand`, with `strings.Contains` and `strings.ReplaceAll` of
-- a text that is not empty.
use mcbenchmark.Prelude.{
  ℕ, zero, suc, ◌-◌, ◌==◌, List, [], ◌∷◌, ◌++◌, Bool, true, false, ◌&&◌, ◌||◌, length,
  if◌then◌else◌,
}

-- `"{SELF}"`
abbrev pub self_token : List ℕ
self_token = b'{' ∷ b'S' ∷ b'E' ∷ b'L' ∷ b'F' ∷ b'}' ∷ []

unfoldable pub starts_with : List ℕ → List ℕ → Bool
starts_with [] s = true
starts_with (c ∷ cs) [] = false
starts_with (c ∷ cs) (d ∷ ds) = c == d && starts_with cs ds

unfoldable pub contains : List ℕ → List ℕ → Bool
unfolding starts_with
contains [] sub = starts_with sub []
contains (c ∷ cs) sub = starts_with sub (c ∷ cs) || contains cs sub

-- The text with each occurrence of `old` replaced, behind `skip` bytes of one that is done.
unfoldable pub replace_from : ℕ → List ℕ → List ℕ → List ℕ → List ℕ
unfolding starts_with
replace_from skip [] old new = []
replace_from (suc skip) (c ∷ cs) old new = replace_from skip cs old new
replace_from zero (c ∷ cs) old new = elim (starts_with old (c ∷ cs)) [
  | true ↦ new ++ replace_from (length old - 1) cs old new
  | false ↦ c ∷ replace_from zero cs old new
]

unfoldable pub replace_all : List ℕ → List ℕ → List ℕ → List ℕ
unfolding replace_from
replace_all s old new = replace_from 0 s old new

unfoldable pub without_slash : List ℕ → List ℕ
without_slash [] = []
without_slash (c ∷ cs) = if c == b'/' then cs else c ∷ cs

unfoldable pub expand_command : List ℕ → List ℕ → List ℕ
unfolding contains replace_all without_slash
expand_command cmd username =
    without_slash (if contains cmd self_token then replace_all cmd self_token username else cmd)
