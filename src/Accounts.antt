-- ===== src/Accounts.antt =====
-- go/internal/replay/runner.go (`buildSession`) and go/internal/playerdata/playerdata.go (`Run`,
-- `removeAll`): the names of the accounts, `fmt.Sprintf("%s%05d", prefix, i)`.
use mcbenchmark.Prelude.{
  ℕ, zero, suc, ◌-◌, ◌^◌, ◌≤◌, ◌<◌, ◌≡◌, refl, sym, ap, ◌∙◌, List, [], ◌∷◌, ◌++◌, length, drop,
  drop-append, length-append, arith,
}
use mcbenchmark.Prelude.Decimal.{
  digits_from, number_from, number_from-digits_from, length-digits_from,
}

abbrev pub zeros : ℕ → List ℕ
zeros zero = []
zeros (suc n) = b'0' ∷ zeros n

-- `%05d`; an int has at most 19 digits.
unfoldable pub padded : ℕ → List ℕ
padded i = let ds = digits_from 19 i in zeros (5 - length ds) ++ ds

unfoldable pub account_name : List ℕ → ℕ → List ℕ
unfolding padded
account_name prefix i = prefix ++ padded i

length-zeros : (n : ℕ) → length (zeros n) ≡ n
length-zeros zero = refl
length-zeros (suc n) = ap suc (length-zeros n)

number_from-zeros : (n : ℕ) (ds : List ℕ) → number_from 0 (zeros n ++ ds) ≡ number_from 0 ds
number_from-zeros zero ds = refl
number_from-zeros (suc n) ds = number_from-zeros n ds

-- The index is read back from its five digits or more.
number_from-padded : (i : ℕ) → i < 10 ^ 19 → number_from 0 (padded i) ≡ i
unfolding padded
number_from-padded i h =
    number_from-zeros (5 - length (digits_from 19 i)) (digits_from 19 i)
    ∙ number_from-digits_from 19 i h

-- Under one prefix, two accounts with different indices have different names.
pub account_name-distinct :
    (prefix : List ℕ) (i j : ℕ)
    → i < 10 ^ 19
    → j < 10 ^ 19
    → account_name prefix i ≡ account_name prefix j
    → i ≡ j
unfolding account_name
account_name-distinct prefix i j hi hj e =
    sym (number_from-padded i hi)
    ∙ ap (number_from 0) (
        sym (drop-append prefix (padded i))
        ∙ ap (drop (length prefix)) e
        ∙ drop-append prefix (padded j))
    ∙ number_from-padded j hj

-- With a prefix of at most 11 characters, the first 100,000 accounts have names of at most 16.
pub length-account_name :
    (prefix : List ℕ) (i : ℕ)
    → length prefix ≤ 11
    → i < 100000
    → length (account_name prefix i) ≤ 16
unfolding account_name padded
length-account_name prefix i hp hi = omega (
  arith,
  length-append prefix (zeros (5 - length (digits_from 19 i)) ++ digits_from 19 i),
  length-append (zeros (5 - length (digits_from 19 i))) (digits_from 19 i),
  length-zeros (5 - length (digits_from 19 i)),
  length-digits_from 19 4 i (omega arith),
)
