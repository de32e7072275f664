-- ===== src/Packets/Chunk/Words.antt =====
-- go/internal/mcproto/chunk.go: the words of a container, as the server's writers fill them: each word
-- holds as many entries as fit whole, the first one lowest, and stands big-endian.
use native.Mathlib.Nat.{
  pow-suc, add-mul-div_left, add-mul-mod_self_left, div-eq_of_lt, mod-eq_of_lt, div-div-eq-div-mul,
  div-one,
}
use mcbenchmark.Prelude.{
  drop-drop, ℕ, zero, suc, ◌+◌, ◌*◌, ◌/◌, ◌%◌, ◌^◌, ◌≤◌, ◌<◌, ◌≡◌, refl, sym, ap, ◌∙◌, List, [],
  ◌∷◌, ◌++◌, length, take, drop, take-append, All, arith,
}
use mcbenchmark.Prelude.Bits.{two_pow_pos}
use mcbenchmark.Wire.Fixed.{be, of_be}
use mcbenchmark.Wire.Fixed.RoundTrip.{length-be, of_be-be}
use mcbenchmark.Packets.Chunk.States.{long_at}

-- The i-th entry, 0 past the end.
abbrev pub nth : List ℕ → ℕ → ℕ
nth [] i = 0
nth (v ∷ vs) zero = v
nth (v ∷ vs) (suc i) = nth vs i

pow-add : (a b : ℕ) → 2 ^ (a + b) ≡ 2 ^ a * 2 ^ b
pow-add zero b =
    let e : 0 + b ≡ b = omega arith in
    let one : 2 ^ b ≡ 2 ^ 0 * 2 ^ b = omega arith in ap (λ t. 2 ^ t) e ∙ one
pow-add (suc a) b =
    let e : suc a + b ≡ suc (a + b) = omega arith in
    let twice : 2 ^ a * 2 ^ b * 2 ≡ 2 ^ suc a * 2 ^ b =
      omega (arith, ap (λ (t : ℕ). t * 2 ^ b) (pow-suc 2 a)) in
    ap (λ t. 2 ^ t) e ∙ pow-suc 2 (a + b) ∙ ap (λ t. t * 2) (pow-add a b) ∙ twice

-- An entry below words that fit: the sum fits.
below_product : (v p w q : ℕ) → v < p → w < q → v + p * w < p * q
below_product v p w q h g = grind arith

pub pow-le : (a b : ℕ) → a ≤ b → 2 ^ a ≤ 2 ^ b
pow-le zero b h = two_pow_pos b
pow-le (suc a) zero h = absurd (omega arith)
pow-le (suc a) (suc b) h = omega (arith, pow-suc 2 a, pow-suc 2 b, pow-le a b (omega arith))

drop_behind : (n : ℕ) (xs ys : List ℕ) → drop (length xs + n) (xs ++ ys) ≡ drop n ys
drop_behind n [] ys = let e : 0 + n ≡ n = omega arith in ap (λ t. drop t ys) e
drop_behind n (x ∷ xs) ys =
    let e : suc (length xs) + n ≡ suc (length xs + n) = omega arith in
    ap (λ t. drop t (x ∷ xs ++ ys)) e ∙ drop_behind n xs ys

take_word : (w : ℕ) (rest : List ℕ) → take 8 (be 8 w ++ rest) ≡ be 8 w
take_word w rest =
    ap (λ t. take t (be 8 w ++ rest)) (sym (length-be 8 w)) ∙ take-append (be 8 w) rest

module _ (bpe : ℕ) where
  -- One word of entries.
  unfoldable pub word : List ℕ → ℕ
  word [] = 0
  word (v ∷ vs) = v + 2 ^ bpe * word vs

  -- `m` words of `per` entries.
  unfoldable pub put_longs : ℕ → ℕ → List ℕ → List ℕ
  unfolding word
  put_longs per zero vs = []
  put_longs per (suc m) vs = be 8 (word (take per vs)) ++ put_longs per m (drop per vs)

  pub word-lt : (vs : List ℕ) → All (λ v. v < 2 ^ bpe) vs → word vs < 2 ^ (bpe * length vs)
  unfolding word
  word-lt [] h = omega (arith, two_pow_pos (bpe * 0))
  word-lt (v ∷ vs) h =
      let e : bpe * suc (length vs) ≡ bpe + bpe * length vs = grind arith in
      omega (
        arith,
        ap (λ t. 2 ^ t) e ∙ pow-add bpe (bpe * length vs),
        below_product v (2 ^ bpe) (word vs) (2 ^ (bpe * length vs)) h.0 (word-lt vs h.1),
      )

  pub word_entry :
      (vs : List ℕ) (j : ℕ)
      → All (λ v. v < 2 ^ bpe) vs
      → word vs / 2 ^ (j * bpe) % 2 ^ bpe ≡ nth vs j
  unfolding word
  word_entry [] j h =
      ap (λ t. t % 2 ^ bpe)
        (div-eq_of_lt {m = 2 ^ (j * bpe)} (omega (arith, two_pow_pos (j * bpe))))
      ∙ mod-eq_of_lt (omega (arith, two_pow_pos bpe))
  word_entry (v ∷ vs) zero h =
      let e : 0 * bpe ≡ 0 = omega arith in
      ap (λ t. (v + 2 ^ bpe * word vs) / 2 ^ t % 2 ^ bpe) e
      ∙ ap (λ t. t % 2 ^ bpe) (div-one (v + 2 ^ bpe * word vs))
      ∙ add-mul-mod_self_left v (2 ^ bpe) (word vs)
      ∙ mod-eq_of_lt h.0
  word_entry (v ∷ vs) (suc j) h =
      let e : suc j * bpe ≡ bpe + j * bpe = grind arith in
      let first : (v + 2 ^ bpe * word vs) / 2 ^ bpe ≡ word vs = omega (
        arith,
        add-mul-div_left v (word vs) {y = 2 ^ bpe} (two_pow_pos bpe),
        div-eq_of_lt {n = v} {m = 2 ^ bpe} h.0,
      ) in
      ap (λ t. (v + 2 ^ bpe * word vs) / t % 2 ^ bpe) (ap (λ t. 2 ^ t) e ∙ pow-add bpe (j * bpe))
      ∙ ap (λ t. t % 2 ^ bpe)
          (sym (div-div-eq-div-mul (v + 2 ^ bpe * word vs) (2 ^ bpe) (2 ^ (j * bpe))))
      ∙ ap (λ t. t / 2 ^ (j * bpe) % 2 ^ bpe) first
      ∙ word_entry vs j h.1

  -- The words stand one behind the other.
  pub long_at-put_longs :
      (per m li : ℕ) (vs : List ℕ)
      → li < m
      → ((n : ℕ) → word (take per (drop (n * per) vs)) < 2 ^ 64)
      → long_at (put_longs per m vs) li ≡ word (take per (drop (li * per) vs))
  unfolding long_at put_longs
  long_at-put_longs per zero li vs h fits = absurd (omega arith)
  long_at-put_longs per (suc m) zero vs h fits =
      let e : 0 * per ≡ 0 = omega arith in
      let small : word (take per vs) < 256 ^ 8 =
        omega (arith, fits 0, ap (λ t. word (take per (drop t vs))) e) in
      ap of_be (take_word (word (take per vs)) (put_longs per m (drop per vs)))
      ∙ of_be-be 8 (word (take per vs)) small
      ∙ ap (λ t. word (take per (drop t vs))) (sym e)
  long_at-put_longs per (suc m) (suc li) vs h fits =
      let w = word (take per vs) in
      let rest = put_longs per m (drop per vs) in
      let at : suc li * 8 ≡ length (be 8 w) + li * 8 = omega (arith, length-be 8 w) in
      let same : (n : ℕ) → drop (n * per) (drop per vs) ≡ drop (suc n * per) vs =
        λ n. drop-drop (n * per) per vs ∙ ap (λ t. drop t vs) (next_start n) in
      ap (λ t. of_be (take 8 (drop t (be 8 w ++ rest)))) at
      ∙ ap (λ t. of_be (take 8 t)) (drop_behind (li * 8) (be 8 w) rest)
      ∙ long_at-put_longs per m li (drop per vs) (omega arith) (λ n. rw (same n) (fits (suc n)))
      ∙ ap (λ t. word (take per t)) (same li)
    where
      next_start : (n : ℕ) → per + n * per ≡ suc n * per
      next_start n = grind arith

pub nth-drop : (q r : ℕ) (vs : List ℕ) → nth (drop q vs) r ≡ nth vs (q + r)
nth-drop zero r vs = let e : r ≡ 0 + r = omega arith in ap (nth vs) e
nth-drop (suc q) r [] = refl
nth-drop (suc q) r (v ∷ vs) =
    let e : suc (q + r) ≡ suc q + r = omega arith in nth-drop q r vs ∙ ap (nth (v ∷ vs)) e

pub nth-take : (per r : ℕ) (vs : List ℕ) → r < per → nth (take per vs) r ≡ nth vs r
nth-take zero r vs h = absurd (omega arith)
nth-take (suc per) r [] h = refl
nth-take (suc per) zero (v ∷ vs) h = refl
nth-take (suc per) (suc r) (v ∷ vs) h = nth-take per r vs (omega arith)

module _ (P : ℕ → Type 0) where
  pub All-take : (n : ℕ) (vs : List ℕ) → All P vs → All P (take n vs)
  All-take zero vs h = tt
  All-take (suc n) [] h = tt
  All-take (suc n) (v ∷ vs) h = (h.0, All-take n vs h.1)

  pub All-drop : (n : ℕ) (vs : List ℕ) → All P vs → All P (drop n vs)
  All-drop zero vs h = h
  All-drop (suc n) [] h = tt
  All-drop (suc n) (v ∷ vs) h = All-drop n vs h.1
