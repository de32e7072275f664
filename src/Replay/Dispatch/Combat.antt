-- ===== src/Replay/Dispatch/Combat.antt =====
-- go/internal/replay/dispatch.go: the cases of `dispatch` about other entities, attacked or clicked.
use mcbenchmark.Prelude.{ℕ, ◌+◌, List, Bool, true, false, if◌then◌else◌, Option, none, some}
use mcbenchmark.Prelude.Int.{ℤ, negsuc}
use mcbenchmark.Replay.Dispatch.{decoded}
use mcbenchmark.Float.{Arithmetic, eye_height}
use mcbenchmark.Payload.Text.{EntityRef, decode_entity_ref}
use mcbenchmark.Packets.Build.{attack, interact_at}
use mcbenchmark.Packets.EntityTypes.{entity_type_id}
use mcbenchmark.Packets.Ids.Serverbound
use mcbenchmark.Replay.Session.{Session, post}
use mcbenchmark.Replay.Entities.{nearest}
use mcbenchmark.Replay.Dispatch.Blocks.{swing}

-- The type that is wanted, -1 where the key is not known.
abbrev pub type_or_none : Option ℤ → ℤ
type_or_none none = negsuc 0
type_or_none (some id) = id

unfoldable pub count_hit : Bool → Session → Session
count_hit exact s =
    let on_type = record s.agg { attacks_on_type = s.agg.attacks_on_type + 1 } in
    let off_type = record s.agg { attacks_off_type = s.agg.attacks_off_type + 1 } in
    record s { agg = if exact then on_type else off_type }

module _ (accepts : ℕ → Bool) where
  unfoldable pub hit : Bool → ℤ → ℤ → Session → Session
  hit attacks id hand s =
      if attacks
      then swing accepts (post accepts Serverbound.attack (attack id) s)
      else post accepts Serverbound.interact (interact_at id hand false) s

  -- Nothing in range: the swing goes out all the same.
  unfoldable pub miss : Session → Session
  miss s =
      let s' = swing accepts s in
      let agg = record s'.agg { attacks_no_target = s'.agg.attacks_no_target + 1 } in
      record s' { agg = agg }

  unfoldable pub aim : Bool → ℤ → ℤ × Bool × Bool → Session → Session
  aim attacks hand (id, exact, found) s =
      if found then count_hit exact (hit attacks id hand s) else miss s

module _ (fl : Arithmetic) (accepts : ℕ → Bool) where
  -- The live entity to aim at, from the player's eyes.
  unfoldable pub target_of : EntityRef → Session → ℤ × Bool × Bool
  target_of hint s =
      nearest fl s.view.x (fl.add s.view.y eye_height) s.view.z
        (type_or_none (entity_type_id hint.type_key)) s.entities

  unfoldable pub on_entity : Bool → List ℕ → Session → Session × Bool
  on_entity attacks payload s =
      decoded (decode_entity_ref payload) s
        (λ hint. (aim accepts attacks hint.hand (target_of hint s) s, true))
