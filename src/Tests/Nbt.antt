-- ===== src/Tests/Nbt.antt =====
-- A player file of three values, at which the theorems on NBT apply.
use mcbenchmark.Prelude.{bytes_eq, ◌≡◌, ◌≢◌, refl, [], ◌∷◌, arith}
use mcbenchmark.Prelude.Int.{negsuc}
use mcbenchmark.Wire.Reading.{ok, err, out_of_fuel}
use mcbenchmark.Nbt.Model.{Fields, end, field, long, list, compound, cons, nil, double, tag_of}
use mcbenchmark.Nbt.Writing.{put_root}
use mcbenchmark.Nbt.Reading.{has_name, parse_root}
use mcbenchmark.Nbt.RoundTrip.Sizes.{IsFields}
use mcbenchmark.Nbt.Rounds.{parse_root-ends}
use mcbenchmark.Nbt.RoundTrip.Trees.{parse_root-put_root}

-- `{"Data": {"Pos": [1.0, 2.0]}, "Time": -6}`
abbrev player_file : Fields
player_file =
    field (68 ∷ 97 ∷ 116 ∷ 97 ∷ [])
      (compound (
        field (80 ∷ 111 ∷ 115 ∷ [])
          (list 6 (cons (double 4607182418800017408) (cons (double 4611686018427387904) nil))) end))
      (field (84 ∷ 105 ∷ 109 ∷ 101 ∷ []) (long (negsuc 5)) end)

player_file-IsFields : IsFields player_file
unfolding IsFields has_name bytes_eq tag_of
player_file-IsFields = (
  omega arith,
  refl,
  (omega arith, refl, (omega arith, omega arith, (refl, omega arith, (refl, omega arith, tt))), tt),
  (omega arith, refl, omega arith, tt),
)

parse_root-put_root_example : parse_root (put_root player_file) ≡ ok player_file
parse_root-put_root_example = parse_root-put_root player_file player_file-IsFields

parse_root-ends_example : parse_root (10 ∷ 0 ∷ 0 ∷ 9 ∷ 0 ∷ 0 ∷ 10 ∷ 127 ∷ []) ≢ err out_of_fuel
parse_root-ends_example = parse_root-ends (10 ∷ 0 ∷ 0 ∷ 9 ∷ 0 ∷ 0 ∷ 10 ∷ 127 ∷ [])
