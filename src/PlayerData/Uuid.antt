-- ===== src/PlayerData/Uuid.antt =====
-- go/internal/playerdata: UUIDs, as 16 bytes, in hexadecimal and as four ints. `hex` and `strings` are
-- Go's standard library.
use mcbenchmark.Prelude.{
  ℕ, zero, suc, ◌+◌, ◌-◌, ◌*◌, ◌/◌, ◌%◌, ◌≤◌, ◌<◌, ◌≡◌, ◌∙◌, sym, ap, refl, List, [], ◌∷◌, ◌++◌,
  length, take, drop, All, take-append-drop, drop-drop, length-drop, ◌&&◌, Option, none, some,
  if◌then◌else◌, leb, ◌==◌, arith,
}
use mcbenchmark.Prelude.Int.{ℤ}
use mcbenchmark.Prelude.Word.{i32, u32, u32-i32}
use mcbenchmark.Wire.Fixed.{be}
use mcbenchmark.Nbt.Writing.{put_i32, put_ints}

abbrev pub hex_digit : ℕ → ℕ
hex_digit n = if leb n 9 then b'0' + n else b'a' + (n - 10)

-- `hex.EncodeToString`
unfoldable pub to_hex : List ℕ → List ℕ
to_hex [] = []
to_hex (b ∷ bs) = hex_digit (b / 16) ∷ hex_digit (b % 16) ∷ to_hex bs

unfoldable pub hex_value : ℕ → Option ℕ
hex_value c =
    if leb b'0' c && leb c b'9'
    then some (c - b'0')
    else if leb b'a' c && leb c b'f'
    then some (c - b'a' + 10)
    else if leb b'A' c && leb c b'F'
    then some (c - b'A' + 10)
    else none

-- `hex.DecodeString`
unfoldable pub of_hex : List ℕ → Option (List ℕ)
unfolding hex_value
of_hex [] = some []
of_hex (c ∷ []) = none
of_hex (c ∷ d ∷ cs) = elim (hex_value c) [
  | none ↦ none
  | some hi ↦ elim (hex_value d) [
    | none ↦ none
    | some lo ↦ elim (of_hex cs) [ none ↦ none | some bs ↦ some ((hi * 16 + lo) ∷ bs) ]
  ]
]

-- `strings.ReplaceAll(s, "-", "")`
unfoldable pub without_dashes : List ℕ → List ℕ
without_dashes [] = []
without_dashes (c ∷ cs) = if c == b'-' then without_dashes cs else c ∷ without_dashes cs

unfoldable pub parse_uuid : List ℕ → Option (List ℕ)
unfolding without_dashes of_hex
parse_uuid s = let h = without_dashes s in if length h == 32 then of_hex h else none

-- `h[n:m]`
abbrev slice : ℕ → ℕ → List ℕ → List ℕ
slice n m h = take (m - n) (drop n h)

unfoldable pub format_uuid : List ℕ → List ℕ
unfolding to_hex
format_uuid u =
    let h = to_hex u in
    slice 0 8 h
    ++ (b'-'
        ∷ (slice 8 12 h
            ++ (b'-' ∷ (slice 12 16 h ++ (b'-' ∷ (slice 16 20 h ++ (b'-' ∷ slice 20 32 h)))))))

-- Four big-endian ints: the bytes do not overlap, so that `|` adds them.
unfoldable pub uuid_ints : List ℕ → List ℤ
unfolding i32
uuid_ints (a ∷ b ∷ c ∷ d ∷ u) = i32 (a * 16777216 + b * 65536 + c * 256 + d) ∷ uuid_ints u
uuid_ints _ = []

abbrev IsByte : ℕ → Type 0
IsByte b = b < 256

hex_value-hex_digit : (n : ℕ) → n < 16 → hex_value (hex_digit n) ≡ some n
unfolding hex_value
hex_value-hex_digit n h = ground arith

of_hex_lem :
    (c d : ℕ) {hi lo : ℕ} (cs : List ℕ) {bs : List ℕ}
    → hex_value c ≡ some hi
    → hex_value d ≡ some lo
    → of_hex cs ≡ some bs
    → of_hex (c ∷ d ∷ cs) ≡ some ((hi * 16 + lo) ∷ bs)
unfolding of_hex
of_hex_lem c d cs p q r = rw (of_hex, p, q, r) refl

of_hex-to_hex : (bs : List ℕ) → All IsByte bs → of_hex (to_hex bs) ≡ some bs
unfolding of_hex to_hex
of_hex-to_hex [] h = refl
of_hex-to_hex (b ∷ bs) h =
    let e : b / 16 * 16 + b % 16 ≡ b = omega arith in
    of_hex_lem (hex_digit (b / 16)) (hex_digit (b % 16)) (to_hex bs)
      (hex_value-hex_digit (b / 16) (omega (arith, h.0)))
      (hex_value-hex_digit (b % 16) (omega arith)) (of_hex-to_hex bs h.1)
    ∙ ap (λ t. some (t ∷ bs)) e

length-to_hex : (bs : List ℕ) → length (to_hex bs) ≡ 2 * length bs
unfolding to_hex
length-to_hex [] = omega arith
length-to_hex (b ∷ bs) = omega (arith, length-to_hex bs)

without_dashes-append :
    (xs ys : List ℕ) → without_dashes (xs ++ ys) ≡ without_dashes xs ++ without_dashes ys
unfolding without_dashes
without_dashes-append [] ys = refl
without_dashes-append (c ∷ xs) ys = ground (arith, without_dashes-append xs ys)

without_dashes-to_hex : (bs : List ℕ) → All IsByte bs → without_dashes (to_hex bs) ≡ to_hex bs
unfolding without_dashes to_hex
without_dashes-to_hex [] h = refl
without_dashes-to_hex (b ∷ bs) h = ground (arith, without_dashes-to_hex bs h.1)

-- A piece cut out, and its dash taken out again.
without_dashes-rejoin :
    (n : ℕ) (h rest : List ℕ)
    → without_dashes rest ≡ without_dashes (drop n h)
    → without_dashes (take n h ++ (b'-' ∷ rest)) ≡ without_dashes h
unfolding without_dashes
without_dashes-rejoin n h rest e =
    without_dashes-append (take n h) (b'-' ∷ rest)
    ∙ ap (λ t. without_dashes (take n h) ++ t) e
    ∙ sym (without_dashes-append (take n h) (drop n h))
    ∙ ap without_dashes (take-append-drop n h)

take_whole : (n : ℕ) (xs : List ℕ) → length xs ≤ n → take n xs ≡ xs
take_whole zero [] h = refl
take_whole zero (x ∷ xs) h = absurd (omega arith)
take_whole (suc n) [] h = refl
take_whole (suc n) (x ∷ xs) h = ap (λ t. x ∷ t) (take_whole n xs (omega arith))

-- One piece of the form, in front of what is known of the pieces behind it.
piece :
    (m n : ℕ) (h rest : List ℕ)
    → without_dashes rest ≡ without_dashes (drop (m + n) h)
    → without_dashes (take n (drop m h) ++ (b'-' ∷ rest)) ≡ without_dashes (drop m h)
piece m n h rest e =
    without_dashes-rejoin n (drop m h) rest (e ∙ ap without_dashes (sym (drop-drop n m h)))

format_lem :
    (h : List ℕ)
    → length h ≡ 32
    → without_dashes (
        slice 0 8 h
        ++ (b'-'
            ∷ (slice 8 12 h
                ++ (b'-' ∷ (slice 12 16 h ++ (b'-' ∷ (slice 16 20 h ++ (b'-' ∷ slice 20 32 h))))))))
      ≡ without_dashes h
format_lem h n = piece 0 8 h _ (
    piece 8 4 h _ (
      piece 12 4 h _ (
        piece 16 4 h _
          (ap without_dashes (take_whole 12 (drop 20 h) (omega (arith, length-drop 20 h)))))))

-- A UUID of 16 bytes is parsed from its canonical form.
pub parse_uuid-format_uuid :
    (u : List ℕ) → length u ≡ 16 → All IsByte u → parse_uuid (format_uuid u) ≡ some u
unfolding parse_uuid format_uuid
parse_uuid-format_uuid u n h =
    let h32 : length (to_hex u) ≡ 32 = omega (arith, length-to_hex u) in
    let e = format_lem (to_hex u) h32 ∙ without_dashes-to_hex u h in
    rw (parse_uuid, format_uuid, e, h32) (of_hex-to_hex u h)

four :
    {a b c d a' b' c' d' : ℕ}
    → a ≡ a'
    → b ≡ b'
    → c ≡ c'
    → d ≡ d'
    → ◌≡◌ {A = List ℕ} (a ∷ b ∷ c ∷ d ∷ []) (a' ∷ b' ∷ c' ∷ d' ∷ [])
four p q r s = cc

put_i32-bytes :
    (a b c d : ℕ)
    → IsByte a
    → IsByte b
    → IsByte c
    → IsByte d
    → put_i32 (i32 (a * 16777216 + b * 65536 + c * 256 + d)) ≡ a ∷ b ∷ c ∷ d ∷ []
unfolding put_i32 u32 be
put_i32-bytes a b c d p q r s =
    ap (be 4) (u32-i32 (a * 16777216 + b * 65536 + c * 256 + d) (omega arith))
    ∙ four (omega arith) (omega arith) (omega arith) (omega arith)

grouped : (k : ℕ) (u : List ℕ) → length u ≡ 4 * k → All IsByte u → put_ints (uuid_ints u) ≡ u
unfolding put_ints uuid_ints
grouped zero [] n h = refl
grouped (suc k) (a ∷ b ∷ c ∷ d ∷ u) n h =
    ap (λ t. t ++ put_ints (uuid_ints u)) (put_i32-bytes a b c d h.0 h.1.0 h.1.1.0 h.1.1.1.0)
    ∙ ap (λ t. a ∷ b ∷ c ∷ d ∷ t) (grouped k u (omega arith) h.1.1.1.1)
grouped zero (a ∷ u) n h = absurd (omega arith)
grouped (suc k) [] n h = absurd (omega arith)
grouped (suc k) (a ∷ []) n h = absurd (omega arith)
grouped (suc k) (a ∷ b ∷ []) n h = absurd (omega arith)
grouped (suc k) (a ∷ b ∷ c ∷ []) n h = absurd (omega arith)

-- The four ints of a UUID of 16 bytes are written to a player data file as those bytes.
pub put_ints-uuid_ints : (u : List ℕ) → length u ≡ 16 → All IsByte u → put_ints (uuid_ints u) ≡ u
put_ints-uuid_ints u n h = grouped 4 u n h
