-- ===== src/Wire/Bytes.antt =====
-- `Reader.need`, `Byte`, `Bool` and `Bytes`, and the writers `Raw`, `Byte` and `Bool`.
use mcbenchmark.Prelude.{
  ℕ, ◌≡◌, refl, List, [], ◌∷◌, ◌++◌, Bool, true, false, not, length, take, drop, ltb, ◌==◌,
  if◌then◌else◌, take-append, drop-append, length-append, le→ltb, arith,
}
use mcbenchmark.Prelude.Int.{ℤ, pos, negsuc}
use mcbenchmark.Wire.Reading.{
  ok, err, short, negative_length, Reader, pure, ◌>>=◌, ◌>>◌, Reads, Reads-last, Reads-pure,
}

-- `need` moves nothing: it refuses a negative length, and one past the end.
unfoldable pub need : ℤ → Reader (Unit {0})
need (negsuc n) bs = err negative_length
need (pos n) bs = if ltb (length bs) n then err short else ok (tt, bs)

-- `r.data[r.off : r.off+n]; r.off += n`
unfoldable pub advance : ℕ → Reader (List ℕ)
advance n bs = ok (take n bs, drop n bs)

abbrev size_of : ℤ → ℕ
size_of (pos n) = n
size_of (negsuc n) = 0

unfoldable pub bytes : ℤ → Reader (List ℕ)
unfolding need advance ◌>>◌ ◌>>=◌
bytes n = need n >> advance (size_of n)

-- `b := r.data[r.off]; r.off++`; the empty case, an index out of range, stands behind `need(1)`.
unfoldable pub next : Reader ℕ
next [] = err short
next (b ∷ bs) = ok (b, bs)

unfoldable pub byte : Reader ℕ
unfolding need next ◌>>◌ ◌>>=◌
byte = need (pos 1) >> next

unfoldable pub bool : Reader Bool
bool = do b ← byte; pure (not (b == 0))

-- `w.Bool(v)`
unfoldable pub put_bool : Bool → List ℕ
put_bool v = (if v then 1 else 0) ∷ []

pub byte_lem : (b : ℕ) (rest : List ℕ) → byte (b ∷ rest) ≡ ok (b, rest)
unfolding byte
byte_lem b rest = rw (le→ltb (length (b ∷ rest)) 1 (omega arith), ◌>>◌, ◌>>=◌)

pub byte-nil : byte [] ≡ err short
unfolding byte
byte-nil = refl

pub byte-Reads : {b : ℕ} → Reads byte (b ∷ []) b
byte-Reads {b} = record { reads = λ rest. byte_lem b rest }

pub bool-Reads : (v : Bool) → Reads bool (put_bool v) v
unfolding bool put_bool
bool-Reads true = Reads-last _ byte-Reads Reads-pure
bool-Reads false = Reads-last _ byte-Reads Reads-pure

pub bytes-Reads : (xs : List ℕ) → Reads (bytes (pos (length xs))) xs xs
unfolding bytes
bytes-Reads xs = record {
  reads = λ rest. rw (
    le→ltb (length (xs ++ rest)) (length xs) (omega (arith, length-append xs rest)),
    ◌>>◌,
    ◌>>=◌,
    take-append,
    drop-append,
  );
}
