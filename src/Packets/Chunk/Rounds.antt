-- ===== src/Packets/Chunk/Rounds.antt =====
-- go/internal/mcproto/chunk.go: the walk over the sections of a column ends; its rounds, one for each
-- byte of the buffer, are enough.
use mcbenchmark.Prelude.{
  ℕ, zero, suc, ◌+◌, ◌*◌, ◌≤◌, ◌≡◌, ◌≢◌, inl, inr, refl, List, [], ◌∷◌, Bool, true, false, length,
  Bool-cases, ◌==◌, ltb, leb, Option, none, some, arith,
}
use mcbenchmark.Prelude.Int.{ℤ, pos, negsuc}
use mcbenchmark.Prelude.Word.{i32}
use mcbenchmark.Wire.Reading.{
  Error, Result, ok, err, out_of_fuel, implausible_count, Reader, ◌>>◌, run,
}
use mcbenchmark.Wire.Tame.{
  Tame, Tame-bind, Tame-pure, Tame-fail, Tame-if, Takes, Takes-bind, Result-cases, byte-Tame,
  bytes-Tame, var_int-Tame, bytes-Takes, int32_be-Tame,
}
use mcbenchmark.Replay.Ledger.{Position}
use mcbenchmark.Packets.Chunk.{Corner, un_index, times_16, longs_for}
use mcbenchmark.Packets.Chunk.Containers.{
  lift, counted, read_entries, single_id, id_table, read_palette, read_longs, skip_longs,
  skip_container, skip_map, skip_maps, skip_heightmaps,
}
use mcbenchmark.Packets.Chunk.States.{
  Writes, entry_bits, keep_state, palette_entry, state_of, unpack, single, packed_states,
  read_states,
}
use mcbenchmark.Packets.Chunk.Walk.{
  read_section, and_sections, read_sections, chunk_of, read_chunk_blocks, parse_chunk_blocks,
}

-- The result is no lack of rounds.
abbrev pub Sound {ℓ} : {A : Type ℓ} → Result A → Type ℓ
Sound r = (e : Error) → r ≡ err e → e ≢ out_of_fuel

lift-Tame {ℓ} : {A : Type ℓ} (r : Result A) → Sound r → Tame (lift r)
unfolding lift
lift-Tame (ok a) h = Tame-pure a
lift-Tame (err e) h = Tame-fail e (h e refl)

counted-Tame {ℓ} :
    {A : Type ℓ} (unit : ℕ) (n : ℤ) (f : ℕ → Reader A)
    → ((k : ℕ) → Tame (f k))
    → Tame (counted unit n f)
unfolding counted
counted-Tame unit (negsuc n) f h = Tame-fail implausible_count (λ e. cc e)
counted-Tame unit (pos n) f h = record {
  leaves = λ bs a rest e. elim (Bool-cases (ltb (length bs) (n * unit))) [
    | inl few ↦ absurd (cc (rw few at e))
    | inr enough ↦ (h n).leaves bs a rest (rw enough at e)
  ];
  fails = λ bs x e. elim (Bool-cases (ltb (length bs) (n * unit))) [
    | inl few ↦ λ same. cc (rw few at e, same)
    | inr enough ↦ (h n).fails bs x (rw enough at e)
  ];
}

read_entries-Tame : (n : ℕ) → Tame (read_entries n)
unfolding read_entries
read_entries-Tame zero = Tame-pure []
read_entries-Tame (suc n) =
    Tame-bind _ _ var_int-Tame (λ v. Tame-bind _ _ (read_entries-Tame n) (λ vs. Tame-pure _))

read_palette-Tame : (bpe max_indirect : ℕ) → Tame (read_palette bpe max_indirect)
unfolding read_palette single_id id_table
read_palette-Tame bpe max_indirect =
    Tame-if (bpe == 0) (Tame-bind _ _ var_int-Tame (λ v. Tame-pure _)) (
      Tame-if (leb bpe max_indirect)
        (Tame-bind _ _ var_int-Tame (λ n.
          Tame-bind _ _ (counted-Tame 1 n read_entries read_entries-Tame) (λ vs. Tame-pure _)))
        (Tame-pure none))

longs_for-Sound : (bpe entries : ℕ) → Sound (longs_for bpe entries)
unfolding longs_for
longs_for-Sound bpe entries e h same = ground arith

read_longs-Tame : (bpe entries : ℕ) → Tame (read_longs bpe entries)
unfolding read_longs
read_longs-Tame bpe entries =
    Tame-bind _ _ (lift-Tame (longs_for bpe entries) (longs_for-Sound bpe entries))
      (λ longs. bytes-Tame _)

skip_container-Tame : (entries max_indirect : ℕ) → Tame (skip_container entries max_indirect)
unfolding skip_container skip_longs ◌>>◌
skip_container-Tame entries max_indirect = Tame-bind _ _ byte-Tame (λ bpe.
    Tame-bind _ _ (read_palette-Tame bpe max_indirect) (λ palette.
      Tame-if (bpe == 0) (Tame-pure tt)
        (Tame-bind _ _ (read_longs-Tame bpe entries) (λ raw. Tame-pure tt))))

skip_map-Tame : Tame skip_map
unfolding skip_map ◌>>◌
skip_map-Tame = Tame-bind _ _ var_int-Tame (λ t.
    Tame-bind _ _ var_int-Tame
      (λ size. Tame-bind _ _ (counted-Tame 8 size _ (λ n. bytes-Tame _)) (λ longs. Tame-pure tt)))

skip_maps-Tame : (n : ℕ) → Tame (skip_maps n)
unfolding skip_maps ◌>>◌
skip_maps-Tame zero = Tame-pure tt
skip_maps-Tame (suc n) = Tame-bind _ _ skip_map-Tame (λ u. skip_maps-Tame n)

skip_heightmaps-Tame : Tame skip_heightmaps
unfolding skip_heightmaps
skip_heightmaps-Tame = Tame-bind _ _ var_int-Tame (λ n. counted-Tame 1 n skip_maps skip_maps-Tame)

palette_entry-Sound : (vs : List ℤ) (n : ℕ) → Sound (palette_entry vs n)
unfolding palette_entry
palette_entry-Sound [] n e h same = cc (h, same)
palette_entry-Sound (v ∷ vs) zero e h same = cc h
palette_entry-Sound (v ∷ vs) (suc n) e h same = palette_entry-Sound vs n e h same

state_of-Sound : (palette : Option (List ℤ)) (idx : ℤ) → Sound (state_of palette idx)
unfolding state_of
state_of-Sound none idx e h same = cc h
state_of-Sound (some vs) (pos n) e h same = palette_entry-Sound vs n e h same
state_of-Sound (some vs) (negsuc n) e h same = cc (h, same)

keep_state-Sound :
    (b : Bool) (p : Position) (r : Result ℤ) (ws : Result Writes)
    → Sound r
    → Sound ws
    → Sound (keep_state b p r ws)
unfolding keep_state
keep_state-Sound false p r ws f g e h same = g e h same
keep_state-Sound true p (ok state) (ok ws) f g e h same = cc h
keep_state-Sound true p (ok state) (err x) f g e h same = g x refl (cc (h, same))
keep_state-Sound true p (err x) ws f g e h same = f x refl (cc (h, same))

and_sections-Sound : (ws : Writes) (r : Result (Writes × ℕ)) → Sound r → Sound (and_sections ws r)
unfolding and_sections
and_sections-Sound ws (ok (more, total)) f e h same = cc h
and_sections-Sound ws (err x) f e h same = f x refl (cc (h, same))

module _ (want : Position → Bool) where
  unpack-Sound :
      (corner : Corner) (raw : List ℕ) (bpe : ℕ) (palette : Option (List ℤ)) (left i : ℕ)
      → Sound (unpack want corner raw bpe palette left i)
  unfolding unpack
  unpack-Sound corner raw bpe palette zero i = λ e h same. cc h
  unpack-Sound corner raw bpe palette (suc left) i =
      keep_state-Sound (want (un_index i corner)) (un_index i corner) _ _
        (state_of-Sound palette (i32 (entry_bits raw bpe i)))
        (unpack-Sound corner raw bpe palette left (i + 1))

  single-Sound : (corner : Corner) (palette : Option (List ℤ)) → Sound (single want corner palette)
  unfolding single
  single-Sound corner (some (v ∷ vs)) e h same = cc h
  single-Sound corner (some []) e h same = cc (h, same)
  single-Sound corner none e h same = cc (h, same)

  read_states-Tame : (corner : Corner) → Tame (read_states want corner)
  unfolding read_states packed_states
  read_states-Tame corner = Tame-bind _ _ byte-Tame (λ bpe.
      Tame-bind _ _ (read_palette-Tame bpe 8) (λ palette.
        Tame-if (bpe == 0) (lift-Tame _ (single-Sound corner palette)) (
          Tame-bind _ _ (read_longs-Tame bpe 4096)
            (λ raw. lift-Tame _ (unpack-Sound corner raw bpe palette 4096 0)))))

  module _ (min_section_y base_x base_z : ℤ) where
    read_section-Tame : (section : ℕ) → Tame (read_section want min_section_y base_x base_z section)
    unfolding read_section ◌>>◌
    read_section-Tame section = Tame-bind _ _ (bytes-Tame (pos 4)) (λ counts.
        Tame-bind _ _ (read_states-Tame _)
          (λ ws. Tame-bind _ _ (skip_container-Tame 64 3) (λ u. Tame-pure ws)))

    read_section-Takes :
        (section : ℕ) → Takes (read_section want min_section_y base_x base_z section)
    unfolding read_section ◌>>◌
    read_section-Takes section = Takes-bind _ _ (bytes-Takes 4 (omega arith)) (λ counts.
        Tame-bind _ _ (read_states-Tame _)
          (λ ws. Tame-bind _ _ (skip_container-Tame 64 3) (λ u. Tame-pure ws)))

    read_sections-Sound :
        (fuel section : ℕ) (bs : List ℕ)
        → length bs ≤ fuel
        → Sound (read_sections want min_section_y base_x base_z fuel section bs)
    unfolding read_sections
    read_sections-Sound zero section [] few e h same = cc h
    read_sections-Sound (suc fuel) section [] few e h same = cc h
    read_sections-Sound zero section (b ∷ bs) few e h same = absurd (omega arith)
    read_sections-Sound (suc fuel) section (b ∷ bs) few e h same =
        elim (Result-cases (read_section want min_section_y base_x base_z section (b ∷ bs))) [
          | inr (x, q) ↦
              (read_section-Tame section).fails (b ∷ bs) x q (cc (rw (q, read_sections) at h, same))
          | inl ((ws, rest), q) ↦
              let shorter = read_section-Takes section (b ∷ bs) ws rest q in
              let ends = read_sections-Sound fuel (section + 1) rest (omega (arith, shorter)) in
              and_sections-Sound ws _ ends e (rw (q, read_sections) at h) same
        ]

  chunk_of-Sound :
      (min_section_y x z : ℤ) (buf : List ℕ) → Sound (chunk_of min_section_y want x z buf)
  unfolding chunk_of
  chunk_of-Sound min_section_y x z buf e h same =
      let ends =
        read_sections-Sound min_section_y (times_16 x) (times_16 z) (length buf) 0 buf
          (omega arith) in
      elim (Result-cases
        (read_sections want min_section_y (times_16 x) (times_16 z) (length buf) 0 buf)) [
          | inl (ws, r) ↦ cc (rw (r, chunk_of) at h)
          | inr (x, r) ↦ ends x r (cc (rw (r, chunk_of) at h, same))
        ]

  read_chunk_blocks-Tame : (min_section_y : ℤ) → Tame (read_chunk_blocks min_section_y want)
  unfolding read_chunk_blocks ◌>>◌
  read_chunk_blocks-Tame min_section_y = Tame-bind _ _ int32_be-Tame (λ x.
      Tame-bind _ _ int32_be-Tame (λ z. Tame-bind _ _ skip_heightmaps-Tame (λ u.
        Tame-bind _ _ var_int-Tame (λ len.
          Tame-bind _ _ (counted-Tame 1 len _ (λ n. bytes-Tame (pos n)))
            (λ buf. lift-Tame _ (chunk_of-Sound min_section_y x z buf))))))

  -- Whatever a chunk packet holds, its walk ends: the rounds of the loop over the sections, one for
  -- each byte of the buffer, are never used up.
  pub parse_chunk_blocks-ends :
      (min_section_y : ℤ) (body : List ℕ)
      → parse_chunk_blocks min_section_y want body ≢ err out_of_fuel
  unfolding parse_chunk_blocks run
  parse_chunk_blocks-ends min_section_y body h =
      elim (Result-cases (read_chunk_blocks min_section_y want body)) [
        | inl ((c, rest), q) ↦ cc (rw (q, parse_chunk_blocks, run) at h)
        | inr (x, q) ↦
            (read_chunk_blocks-Tame min_section_y).fails body x q
              (cc (rw (q, parse_chunk_blocks, run) at h))
      ]
