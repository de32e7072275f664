-- ===== src/Replay/Session.antt =====
-- go/internal/replay/session.go: the state of a replay session, `send`, and the bookkeeping of digs
-- and placements. A counter is the share that this session adds to the run's `Aggregate`. `writes`
-- and `sent` are no fields of the source: how often the connection was written to, and the packets
-- that it took, the last one first.
use mcbenchmark.Prelude.{
  ℕ, ◌+◌, List, [], ◌∷◌, Option, none, some, Bool, true, false, if◌then◌else◌,
}
use mcbenchmark.Prelude.Int.{ℤ, pos}
use mcbenchmark.Prelude.Word.{add_i32}
use mcbenchmark.Replay.Ledger.{
  Position, position_eq, Ledger, face_offset, beside, has_position, set, lookup,
}
use mcbenchmark.Replay.Entities.{Tracker}
use mcbenchmark.Packets.Parse.{BlockUpdate}
use mcbenchmark.Packets.Chunk.{is_air}

-- `StateNew` and so on; the first is `created`.
pub data State : Type 0 where
  created connecting login configuration awaiting_position : State
  play_ready draining disconnected failed : State

pub record WorldView : Type 0 where
  pub x : ℕ
  pub y : ℕ
  pub z : ℕ
  pub yaw : ℕ
  pub pitch : ℕ
  pub has_pos : Bool
  pub dig_seq : ℤ

-- `Aggregate`, its counters of packets and events
pub record Counts : Type 0 where
  pub events_replayed : ℕ
  pub events_skipped : ℕ
  pub packets_sent : ℕ
  pub relocations_unreproduced : ℕ
  pub digs_sent : ℕ
  pub digs_confirmed : ℕ
  pub places_sent : ℕ
  pub places_confirmed : ℕ
  pub dig_starts_synthesised : ℕ
  pub attacks_on_type : ℕ
  pub attacks_off_type : ℕ
  pub attacks_no_target : ℕ
  pub digs_into_air : ℕ
  pub digs_unverifiable : ℕ
  pub chunks_unparsed : ℕ

pub record Session : Type 0 where
  pub username : List ℕ
  pub state : State
  pub view : WorldView
  pub moved_this_tick : Bool
  pub idle_ticks : ℕ
  pub cur_window : ℤ
  pub cur_state : ℤ
  pub events_replayed : ℕ
  pub packets_sent : ℕ
  pub dig_pending : List Position
  pub place_pending : List Position
  pub entities : Tracker
  pub blocks : Option Ledger
  pub dig_started : List Position
  -- `fail` was called, which keeps the first reason.
  pub ended : Bool
  -- The channel `playReady` is closed.
  pub ready : Bool
  -- The codec's compression threshold, negative while compression is off.
  pub threshold : ℤ
  pub agg : Counts
  pub writes : ℕ
  pub sent : List (ℤ × List ℕ)

-- `m[p] = true` and `delete(m, p)`, on a set of positions
unfoldable pub insert_position : Position → List Position → List Position
unfolding has_position
insert_position p ps = if has_position ps p then ps else p ∷ ps

unfoldable pub delete_position : Position → List Position → List Position
unfolding position_eq
delete_position p [] = []
delete_position p (q ∷ ps) =
    let rest = delete_position p ps in if position_eq q p then rest else q ∷ rest

-- The next sequence number of a block action, on int32.
unfoldable pub next_seq : Session → Session × ℤ
unfolding add_i32
next_seq s =
    let seq = add_i32 s.view.dig_seq (pos 1) in
    let view = record s.view { dig_seq = seq } in (record s { view = view }, seq)

-- `accepts n`: the n-th write on the connection succeeds; none does where there is no connection.
module _ (accepts : ℕ → Bool) where
  -- The session after the write, and whether it went well.
  unfoldable pub send : ℤ → List ℕ → Session → Session × Bool
  send id body s =
      let agg = record s.agg { packets_sent = s.agg.packets_sent + 1 } in
      if accepts s.writes
      then (
        record s {
          packets_sent = s.packets_sent + 1;
          agg = agg;
          writes = s.writes + 1;
          sent = (id, body) ∷ s.sent;
        },
        true,
      )
      else (record s { writes = s.writes + 1 }, false)

  -- `_ = s.send(id, body)`
  unfoldable pub post : ℤ → List ℕ → Session → Session
  post id body s = (send id body s).0

  -- `_ = s.send(id, body(s.nextSeq()))`
  unfoldable pub post_next : ℤ → (ℤ → List ℕ) → Session → Session
  post_next id body s = let (s', seq) = next_seq s in post id (body seq) s'

-- What is known of a position: a state, nothing yet, or there is no ledger.
pub data Known : Type 0 where
  no_ledger unknown_state known_air known_block : Known

abbrev pub known_state : Option ℤ → Known
known_state none = unknown_state
known_state (some state) = if is_air state then known_air else known_block

unfoldable pub known_at : Option Ledger → Position → Known
unfolding is_air lookup
known_at none p = no_ledger
known_at (some l) p = known_state (lookup l p)

-- The dig awaits the server's verdict.
unfoldable pub expect_dig : Position → Session → Session
unfolding insert_position
expect_dig p s =
    let agg = record s.agg { digs_sent = s.agg.digs_sent + 1 } in
    record s { dig_pending = insert_position p s.dig_pending; agg = agg }

unfoldable pub note_dig : Position → Session → Session
unfolding known_at expect_dig
note_dig p s = elim (known_at s.blocks p) [
  | known_air ↦
      let agg = record s.agg { digs_into_air = s.agg.digs_into_air + 1 } in record s { agg = agg }
  | unknown_state ↦
      let agg = record s.agg { digs_unverifiable = s.agg.digs_unverifiable + 1 } in
      expect_dig p (record s { agg = agg })
  | known_block ↦ expect_dig p s
  | no_ledger ↦ expect_dig p s
]

-- The cell in front of the face that was clicked.
unfoldable pub note_place : Position → ℤ → Session → Session
unfolding insert_position face_offset beside
note_place p face s =
    let agg = record s.agg { places_sent = s.agg.places_sent + 1 } in
    let at = beside p (face_offset face) in
    record s { place_pending = insert_position at s.place_pending; agg = agg }

-- `s.blocks.set(…)`, where there is a ledger
unfoldable pub learn : Position → ℤ → Option Ledger → Option Ledger
unfolding set
learn p state none = none
learn p state (some l) = some (set l p state)

unfoldable pub confirm_dig : Position → Session → Session
unfolding has_position delete_position
confirm_dig p s =
    let agg = record s.agg { digs_confirmed = s.agg.digs_confirmed + 1 } in
    if has_position s.dig_pending p
    then record s { dig_pending = delete_position p s.dig_pending; agg = agg }
    else s

unfoldable pub confirm_place : Position → Session → Session
unfolding has_position delete_position
confirm_place p s =
    let agg = record s.agg { places_confirmed = s.agg.places_confirmed + 1 } in
    if has_position s.place_pending p
    then record s { place_pending = delete_position p s.place_pending; agg = agg }
    else s

-- Air where the session dug, anything else where it built.
unfoldable pub confirm_block_update : BlockUpdate → Session → Session
unfolding learn confirm_dig confirm_place is_air
confirm_block_update b s =
    let p : Position = (b.x, b.y, b.z) in
    let s' = record s { blocks = learn p b.state_id s.blocks } in
    if is_air b.state_id then confirm_dig p s' else confirm_place p s'
