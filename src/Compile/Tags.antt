-- ===== src/Compile/Tags.antt =====
-- go/internal/compile/compile.go: `classify`, the tags of a trace from the counts of its kinds.
use mcbenchmark.Prelude.{
  ℕ, ◌+◌, ◌*◌, ◌<◌, ◌≡◌, ◌≢◌, ◌↔◌, ◌⊎◌, ◌≤◌, List, [], ◌∷◌, ◌++◌, leb, ltb, if◌then◌else◌, Bool,
  arith,
}
use mcbenchmark.Prelude.Int.{ℤ}
use mcbenchmark.Event.Kind

pub data Tag : Type 0 where
  combat build traverse commands mixed : Tag

-- `counts`, a Go map whose missing keys read as 0
abbrev pub Counts : Type 0
Counts = ℤ → ℕ

abbrev tag_if : Bool → Tag → List Tag
tag_if b t = if b then t ∷ [] else []

-- The tags that the thresholds give, before the fallback.
unfoldable pub threshold_tags : Counts → ℕ → List Tag
threshold_tags counts total =
    tag_if (leb total ((counts Kind.attack_entity + counts Kind.interact_entity) * 50)) combat
    ++ (tag_if (leb total ((counts Kind.dig + counts Kind.place_block) * 20)) build
        ++ (tag_if (leb (total * 9) (counts Kind.move * 10)) traverse
            ++ tag_if (ltb 0 (counts Kind.cmd)) commands))

-- `if len(tags) == 0 { tags = append(tags, "mixed") }`
abbrev or_mixed : List Tag → List Tag
or_mixed [] = mixed ∷ []
or_mixed (t ∷ ts) = t ∷ ts

unfoldable pub classify : Counts → ℕ → List Tag
unfolding threshold_tags
classify counts total = or_mixed (threshold_tags counts total)

-- The tag is in the list.
abbrev pub Has : Tag → List Tag → Type 0
Has t [] = t ≢ t
Has t (u ∷ us) = (t ≡ u) ⊎ Has t us

-- No trace goes untagged, and each tag stands for its threshold: "combat" from 2% of the events on,
-- "build" from 5%, "traverse" from 90%, "commands" where there is a command, and "mixed" exactly where
-- none of the four holds.
pub classify_tags :
    (counts : Counts) (total : ℕ)
    → (classify counts total ≢ [])
      × (Has combat (classify counts total)
          ↔ (total ≤ (counts Kind.attack_entity + counts Kind.interact_entity) * 50))
      × (Has build (classify counts total)
          ↔ (total ≤ (counts Kind.dig + counts Kind.place_block) * 20))
      × (Has traverse (classify counts total) ↔ (total * 9 ≤ counts Kind.move * 10))
      × (Has commands (classify counts total) ↔ (0 < counts Kind.cmd))
      × (Has mixed (classify counts total) ↔ (
          ((counts Kind.attack_entity + counts Kind.interact_entity) * 50 < total)
          × ((counts Kind.dig + counts Kind.place_block) * 20 < total)
          × (counts Kind.move * 10 < total * 9)
          × (counts Kind.cmd ≡ 0)))
unfolding classify
classify_tags counts total = ground arith
