-- ===== src/Wire/Tame.antt =====
-- Readers that never look past their input and never run out of rounds.
use mcbenchmark.Prelude.{
  ℕ, zero, suc, ◌+◌, ◌≤◌, ◌<◌, ◌≡◌, ◌≢◌, refl, sym, ap, ◌∙◌, inl, inr, ◌⊎◌, List, [], ◌∷◌, Bool,
  true, false, length, length-drop, if◌then◌else◌, ltb, Bool-cases, ltb→le, arith,
}
use mcbenchmark.Prelude.Int.{ℤ, pos, negsuc}
use Prim.Native.Nat.{bit_and}
use mcbenchmark.Prelude.{take, drop, ◌==◌}
use mcbenchmark.Prelude.Word.{i32}
use mcbenchmark.Wire.Reading.{
  short, negative_length, var_int_too_long, Error, out_of_fuel, Result, ok, err, Reader, pure, fail,
  ◌>>=◌, ◌>>◌, >>=-ok, >>=-err,
}
use mcbenchmark.Wire.Bytes.{byte_lem, byte-nil, bytes, byte, need, advance}
use mcbenchmark.Wire.VarInt.{read_groups, var_int}
use mcbenchmark.Wire.Fixed.{int64_be, int32_be, string, string_of_len}
use mcbenchmark.Event.{decode, payload_of_len}

pub record Tame {ℓ} {A : Type ℓ} (m : Reader A) : Type ℓ where
  pub leaves : (bs : List ℕ) (a : A) (rest : List ℕ) → m bs ≡ ok (a, rest) → length rest ≤ length bs
  pub fails : (bs : List ℕ) (e : Error) → m bs ≡ err e → e ≢ out_of_fuel

pub Result-cases {ℓ} :
    {A : Type ℓ} (r : Result A) → ((a : A) × (r ≡ ok a)) ⊎ ((e : Error) × (r ≡ err e))
Result-cases (ok a) = inl (a, refl)
Result-cases (err e) = inr (e, refl)

pub Tame-bind {ℓ κ} :
    {A : Type ℓ} {B : Type κ} (m : Reader A) (f : A → Reader B)
    → Tame m
    → ((a : A) → Tame (f a))
    → Tame (m >>= f)
Tame-bind m f h k = record {
  leaves = λ bs b rest e. elim (Result-cases (m bs)) [
    | inl ((a, mid), q) ↦
        let small = (k a).leaves mid b rest (sym (>>=-ok m f q) ∙ e) in
        omega (arith, small, h.leaves bs a mid q)
    | inr (x, q) ↦ absurd (cc (sym (>>=-err m f q) ∙ e))
  ];
  fails = λ bs x e. elim (Result-cases (m bs)) [
    | inl ((a, mid), q) ↦ (k a).fails mid x (sym (>>=-ok m f q) ∙ e)
    | inr (y, q) ↦ λ same. h.fails bs y q (cc (sym (>>=-err m f q) ∙ e, same))
  ];
}

pub Tame-pure {ℓ} : {A : Type ℓ} (a : A) → Tame (pure a)
unfolding pure
Tame-pure a = record {
  leaves = λ bs b rest e. let q : bs ≡ rest = cc e in omega (arith, ap length q);
  fails = λ bs x e. absurd (cc e);
}

pub Tame-fail {ℓ} : {A : Type ℓ} (x : Error) → x ≢ out_of_fuel → Tame {A = A} (fail x)
unfolding fail
Tame-fail x h = record {
  leaves = λ bs b rest e. absurd (cc e);
  fails = λ bs y e same. h (cc (e, same));
}

-- The reader takes a byte at least.
abbrev pub Takes {ℓ} : {A : Type ℓ} → Reader A → Type ℓ
Takes {A = A} m =
    (bs : List ℕ) (a : A) (rest : List ℕ) → m bs ≡ ok (a, rest) → length rest < length bs

pub Takes-bind {ℓ κ} :
    {A : Type ℓ} {B : Type κ} (m : Reader A) (f : A → Reader B)
    → Takes m
    → ((a : A) → Tame (f a))
    → Takes (m >>= f)
Takes-bind m f h k bs b rest e = elim (Result-cases (m bs)) [
  | inl ((a, mid), q) ↦
      let small = (k a).leaves mid b rest (sym (>>=-ok m f q) ∙ e) in
      omega (arith, small, h bs a mid q)
  | inr (x, q) ↦ absurd (cc (sym (>>=-err m f q) ∙ e))
]

byte-Takes : Takes byte
byte-Takes [] a rest e = absurd (cc (sym byte-nil ∙ e))
byte-Takes (b ∷ bs) a rest e =
    let q : bs ≡ rest = cc (sym (byte_lem b bs) ∙ e) in omega (arith, ap length q)

pub byte-Tame : Tame byte
byte-Tame = record {
  leaves = λ bs a rest e. omega (arith, byte-Takes bs a rest e);
  fails = λ bs x e. byte_fails bs x e;
}
  where
    byte_fails : (bs : List ℕ) (x : Error) → byte bs ≡ err x → x ≢ out_of_fuel
    byte_fails [] x e same = cc (sym byte-nil ∙ e, same)
    byte_fails (b ∷ bs) x e same = cc (sym (byte_lem b bs) ∙ e)

bytes_step :
    (n : ℕ) (bs : List ℕ)
    → bytes (pos n) bs ≡ (if ltb (length bs) n then err short else ok (take n bs, drop n bs))
unfolding bytes
bytes_step n bs = elim (Bool-cases (ltb (length bs) n)) [
  | inl few ↦ rw (few, ◌>>=◌)
  | inr enough ↦ rw (enough, ◌>>=◌)
]

pub bytes-Tame : (n : ℤ) → Tame (bytes n)
bytes-Tame (negsuc n) = record {
  leaves = λ bs a rest e. absurd (cc (sym (refused n bs) ∙ e));
  fails = λ bs x e same. cc (sym (refused n bs) ∙ e, same);
}
  where
    refused : (n : ℕ) (bs : List ℕ) → bytes (negsuc n) bs ≡ err negative_length
    refused n bs = unfold bytes need advance ◌>>◌ ◌>>=◌ in refl
bytes-Tame (pos n) = record {
  leaves = λ bs a rest e. elim (Bool-cases (ltb (length bs) n)) [
    | inl few ↦ absurd (cc (rw few at (sym (bytes_step n bs) ∙ e)))
    | inr enough ↦
        let q : drop n bs ≡ rest = cc (rw enough at (sym (bytes_step n bs) ∙ e)) in
        omega (arith, ap length q, length-drop n bs)
  ];
  fails = λ bs x e same. elim (Bool-cases (ltb (length bs) n)) [
    | inl few ↦ cc (rw few at (sym (bytes_step n bs) ∙ e), same)
    | inr enough ↦ cc (rw enough at (sym (bytes_step n bs) ∙ e))
  ];
}

pub Tame-if {ℓ} :
    {A : Type ℓ} {m k : Reader A} (b : Bool) → Tame m → Tame k → Tame (if b then m else k)
Tame-if true p q = p
Tame-if false p q = q

read_groups-Tame : (m left i u : ℕ) → Tame (read_groups m left i u)
unfolding read_groups
read_groups-Tame m zero i u = Tame-fail var_int_too_long (λ e. cc e)
read_groups-Tame m (suc left) i u =
    Tame-bind byte _ byte-Tame
      (λ b. Tame-if (bit_and b 0x80 == 0) (Tame-pure _) (read_groups-Tame m left (i + 1) _))

read_groups-Takes : (m left i u : ℕ) → Takes (read_groups m (suc left) i u)
unfolding read_groups
read_groups-Takes m left i u =
    Takes-bind byte _ byte-Takes
      (λ b. Tame-if (bit_and b 0x80 == 0) (Tame-pure _) (read_groups-Tame m left (i + 1) _))

pub var_int-Takes : Takes var_int
unfolding var_int
var_int-Takes = Takes-bind _ _ (read_groups-Takes _ 4 0 0) (λ u. Tame-pure (i32 u))

pub var_int-Tame : Tame var_int
unfolding var_int
var_int-Tame = Tame-bind _ _ (read_groups-Tame _ 5 0 0) (λ u. Tame-pure (i32 u))

pub int64_be-Tame : Tame int64_be
unfolding int64_be
int64_be-Tame = Tame-bind _ _ (bytes-Tame (pos 8)) (λ b. Tame-pure _)

string_of_len-Tame : (n : ℤ) → Tame (string_of_len n)
unfolding string_of_len
string_of_len-Tame (negsuc n) = Tame-fail negative_length (λ e. cc e)
string_of_len-Tame (pos n) = Tame-bind _ _ (bytes-Tame (pos n)) (λ b. Tame-pure b)

pub string-Tame : Tame string
unfolding string
string-Tame = Tame-bind _ _ var_int-Tame string_of_len-Tame

payload_of_len-Tame : (n : ℤ) → Tame (payload_of_len n)
unfolding payload_of_len
payload_of_len-Tame (negsuc n) = Tame-fail negative_length (λ e. cc e)
payload_of_len-Tame (pos n) = bytes-Tame (pos n)

pub decode-Tame : Tame decode
unfolding decode
decode-Tame = Tame-bind _ _ int64_be-Tame (λ t. Tame-bind _ _ (bytes-Tame (pos 32)) (λ id.
    Tame-bind _ _ var_int-Tame (λ seq. Tame-bind _ _ var_int-Tame (λ dim.
      Tame-bind _ _ var_int-Tame (λ cx. Tame-bind _ _ var_int-Tame (λ cz.
        Tame-bind _ _ string-Tame (λ region. Tame-bind _ _ var_int-Tame (λ k.
          Tame-bind _ _ var_int-Tame
            (λ n. Tame-bind _ _ (payload_of_len-Tame n) (λ p. Tame-pure _))))))))))

pub bytes-Takes : (n : ℕ) → 1 ≤ n → Takes (bytes (pos n))
bytes-Takes n some_bytes bs a rest e = elim (Bool-cases (ltb (length bs) n)) [
  | inl few ↦ absurd (cc (rw few at (sym (bytes_step n bs) ∙ e)))
  | inr enough ↦
      let q : drop n bs ≡ rest = cc (rw enough at (sym (bytes_step n bs) ∙ e)) in
      omega (arith, ap length q, length-drop n bs, ltb→le (length bs) n)
]

pub int32_be-Tame : Tame int32_be
unfolding int32_be
int32_be-Tame = Tame-bind _ _ (bytes-Tame (pos 4)) (λ b. Tame-pure _)
