-- ===== src/Amplify/Numbers.antt =====
-- go/internal/amplify/amplify.go: the generator `RNG` (splitmix64), and `VaryNumbers`, on the bytes of a
-- command. `strings` and `strconv` are Go's standard library.
use Prim.Native.Nat.{bit_xor}
use mcbenchmark.Prelude.{
  ℕ, zero, suc, ◌+◌, ◌-◌, ◌*◌, ◌/◌, ◌%◌, ◌^◌, List, [], ◌∷◌, ◌++◌, Option, none, some, Bool, true,
  false, ◌&&◌, if◌then◌else◌, ltb, leb, ◌==◌,
}
use mcbenchmark.Prelude.Decimal.{number_from, digits_from}
use mcbenchmark.Prelude.Int.{ℤ, pos, negsuc, ltb_ℤ}
use mcbenchmark.Prelude.Word.{i64, add_i64, sub_i64}

-- What was drawn, and the generator behind it.
abbrev pub Drawn {ℓ} : Type ℓ → Type ℓ
Drawn A = A × ℕ

unfoldable pub next : ℕ → Drawn ℕ
next state =
    let s = (state + 0x9e3779b97f4a7c15) % 2 ^ 64 in
    let y = bit_xor s (s / 2 ^ 30) * 0xbf58476d1ce4e5b9 % 2 ^ 64 in
    let z = bit_xor y (y / 2 ^ 27) * 0x94d049bb133111eb % 2 ^ 64 in (bit_xor z (z / 2 ^ 31), s)

-- `int64(r.Next()%uint64(2*n+1)) - n`
unfoldable pub span : ℤ → ℕ → Drawn ℤ
unfolding next
span (negsuc n) rng = (pos 0, rng)
span (pos zero) rng = (pos 0, rng)
span (pos (suc n)) rng =
    let (v, rest) = next rng in (sub_i64 (i64 (v % (2 * suc n + 1))) (pos (suc n)), rest)

-- `int64(r.Next() % uint64(n+1))`
unfoldable pub upto : ℤ → ℕ → Drawn ℤ
unfolding next
upto (negsuc n) rng = (pos 0, rng)
upto (pos zero) rng = (pos 0, rng)
upto (pos (suc n)) rng = let (v, rest) = next rng in (i64 (v % (suc n + 1)), rest)

abbrev pub push : ℕ → List (List ℕ) → List (List ℕ)
push c [] = (c ∷ []) ∷ []
push c (f ∷ fs) = (c ∷ f) ∷ fs

-- `strings.Split(cmd, " ")`
unfoldable pub split : List ℕ → List (List ℕ)
split [] = [] ∷ []
split (c ∷ cs) = let fields = split cs in if c == 32 then [] ∷ fields else push c fields

-- `strings.Join(fields, " ")`
unfoldable pub join : List (List ℕ) → List ℕ
join [] = []
join (f ∷ []) = f
join (f ∷ g ∷ fs) = f ++ (32 ∷ join (g ∷ fs))

abbrev is_digit : ℕ → Bool
is_digit c = leb 48 c && leb c 57

abbrev all_digits_from : List ℕ → Bool
all_digits_from [] = true
all_digits_from (c ∷ cs) = is_digit c && all_digits_from cs

-- A character outside ASCII has bytes that are no digits either.
unfoldable pub is_all_digits : List ℕ → Bool
is_all_digits [] = false
is_all_digits (c ∷ cs) = all_digits_from (c ∷ cs)

-- `strconv.ParseInt(f, 10, 64)`, on digits
unfoldable pub parse_int : List ℕ → Option ℕ
parse_int f = let n = number_from 0 f in if ltb n (2 ^ 63) then some n else none

-- `strconv.FormatInt(v, 10)`: an int64 has at most 19 digits.
unfoldable pub format_int : ℤ → List ℕ
format_int (pos n) = digits_from 19 n
format_int (negsuc n) = 45 ∷ digits_from 19 (suc n)

-- `n * int64(pct) / 100`, which rounds towards zero
unfoldable pub delta_of : ℕ → ℕ → ℤ
delta_of n percent = elim (i64 (n * percent)) [
  | pos m ↦ pos (m / 100)
  | negsuc m ↦ if ltb (suc m) 100 then pos 0 else negsuc (suc m / 100 - 1)
]

-- `if v < 1 { v = 1 }`
unfoldable pub at_least_one : ℤ → ℤ
at_least_one v = if ltb_ℤ v (pos 1) then pos 1 else v

-- One field of a command.
unfoldable pub vary_field : List ℕ → ℕ → ℕ → Drawn (List ℕ)
unfolding is_all_digits parse_int span delta_of at_least_one format_int
vary_field f percent rng =
    if is_all_digits f
    then elim (parse_int f) [
      | none ↦ (f, rng)
      | some n ↦
          let (d, rest) = span (delta_of n percent) rng in
          if n == 0 then (f, rng) else (format_int (at_least_one (add_i64 (pos n) d)), rest)
    ]
    else (f, rng)

unfoldable pub vary_fields : List (List ℕ) → ℕ → ℕ → Drawn (List (List ℕ))
unfolding vary_field
vary_fields [] percent rng = ([], rng)
vary_fields (f ∷ fs) percent rng =
    let (f', rng') = vary_field f percent rng in
    let (fs', rest) = vary_fields fs percent rng' in (f' ∷ fs', rest)

unfoldable pub vary_numbers : List ℕ → ℤ → ℕ → Drawn (List ℕ)
unfolding vary_fields split join
vary_numbers cmd (negsuc n) rng = (cmd, rng)
vary_numbers cmd (pos zero) rng = (cmd, rng)
vary_numbers cmd (pos (suc n)) rng =
    let (fields, rest) = vary_fields (split cmd) (suc n) rng in (join fields, rest)
