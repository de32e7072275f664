-- ===== src/Replay/Counting.antt =====
-- go/internal/replay: how the operations of a session move its counters.
pub mod Steps
pub mod Handlers
pub mod Packets
pub mod Login
pub mod Runs
use mcbenchmark.Prelude.{
  ℕ, ◌+◌, ◌≤◌, ◌≡◌, refl, inl, inr, List, [], ◌∷◌, Bool, true, false, length, if◌then◌else◌, ◌||◌,
  arith,
}
use mcbenchmark.Prelude.Int.{ℤ, ◌==ℤ◌}
use mcbenchmark.Packets.Ids.Serverbound
use mcbenchmark.Replay.Ledger.{Position, position_eq, has_position}
use mcbenchmark.Replay.Session.{
  Session, insert_position, delete_position, next_seq, send, post, post_next, known_at, expect_dig,
  note_dig, note_place, confirm_dig, confirm_place, confirm_block_update,
}
use mcbenchmark.Packets.Parse.{BlockUpdate}

-- The movement packets among those that were sent.
abbrev pub moves : List (ℤ × List ℕ) → ℕ
moves [] = 0
moves ((id, body) ∷ packets) =
    if id ==ℤ Serverbound.position_look || id ==ℤ Serverbound.flying
    then moves packets + 1
    else moves packets

-- 1 where the session has moved in this tick.
abbrev pub moved : Session → ℕ
moved s = if s.moved_this_tick then 1 else 0

-- From one state to a later one: what is confirmed or awaited grows by no more than what was asked
-- for, each packet that is counted was sent, and the counters of events rest.
-- Where the session comes to have moved in this tick, a movement packet was sent or a write failed.
pub record Follows (s t : Session) : Type 0 where
  pub digs :
      s.agg.digs_sent + t.agg.digs_confirmed + length t.dig_pending
      ≤ t.agg.digs_sent + s.agg.digs_confirmed + length s.dig_pending
  pub places :
      s.agg.places_sent + t.agg.places_confirmed + length t.place_pending
      ≤ t.agg.places_sent + s.agg.places_confirmed + length s.place_pending
  pub packets : t.packets_sent + length s.sent ≡ s.packets_sent + length t.sent
  pub run_packets : t.agg.packets_sent + s.packets_sent ≡ s.agg.packets_sent + t.packets_sent
  pub more : length s.sent ≤ length t.sent
  pub written : length t.sent + s.writes ≤ t.writes + length s.sent
  pub moving :
      moved t + moves s.sent + s.writes + length t.sent
      ≤ moved s + moves t.sent + t.writes + length s.sent
  pub replayed : t.agg.events_replayed ≡ s.agg.events_replayed
  pub replayed_here : t.events_replayed ≡ s.events_replayed
  pub skipped : t.agg.events_skipped ≡ s.agg.events_skipped

pub Follows-refl : {s : Session} → Follows s s
Follows-refl = ground arith

pub Follows-trans : {s t u : Session} → Follows s t → Follows t u → Follows s u
Follows-trans f g = omega arith

length-insert_position :
    (p : Position) (ps : List Position) → length (insert_position p ps) ≤ length ps + 1
unfolding insert_position
length-insert_position p ps = ground arith

length-delete_position :
    (p : Position) (ps : List Position) → length (delete_position p ps) ≤ length ps
unfolding delete_position
length-delete_position p [] = omega arith
length-delete_position p (q ∷ ps) = ground (arith, length-delete_position p ps)

length-delete_position_has :
    (p : Position) (ps : List Position)
    → has_position ps p ≡ true
    → length (delete_position p ps) + 1 ≤ length ps
unfolding delete_position has_position
length-delete_position_has p [] h = absurd (cc h)
length-delete_position_has p (q ∷ ps) h =
    ground (arith, length-delete_position p ps, length-delete_position_has p ps)

pub next_seq-Follows : (s : Session) → Follows s (next_seq s).0
unfolding next_seq
next_seq-Follows s = ground arith

module _ (accepts : ℕ → Bool) where
  pub send-Follows : (id : ℤ) (body : List ℕ) (s : Session) → Follows s (send accepts id body s).0
  unfolding send
  send-Follows id body s = ground arith

  -- A movement packet, after which the tick counts as moved.
  pub post-Follows_moved :
      (id : ℤ) (body : List ℕ) (s : Session)
      → (id ==ℤ Serverbound.position_look || id ==ℤ Serverbound.flying) ≡ true
      → 1 + moves s.sent + s.writes + length (post accepts id body s).sent
        ≤ moves (post accepts id body s).sent + (post accepts id body s).writes + length s.sent
  unfolding post send
  post-Follows_moved id body s h = ground arith

  pub post-Follows : (id : ℤ) (body : List ℕ) (s : Session) → Follows s (post accepts id body s)
  unfolding post
  post-Follows id body s = send-Follows id body s

  pub post_next-Follows :
      (id : ℤ) (body : ℤ → List ℕ) (s : Session) → Follows s (post_next accepts id body s)
  unfolding post_next
  post_next-Follows id body s = Follows-trans (next_seq-Follows s) (post-Follows id _ _)

pub expect_dig-Follows : (p : Position) (s : Session) → Follows s (expect_dig p s)
unfolding expect_dig
expect_dig-Follows p s = ground (arith, length-insert_position p s.dig_pending)

pub note_dig-Follows : (p : Position) (s : Session) → Follows s (note_dig p s)
unfolding note_dig
note_dig-Follows p s = ground (arith, length-insert_position p s.dig_pending)

pub note_place-Follows : (p : Position) (face : ℤ) (s : Session) → Follows s (note_place p face s)
unfolding note_place
note_place-Follows p face s = ground (arith, length-insert_position _ s.place_pending)

pub confirm_dig-Follows : (p : Position) (s : Session) → Follows s (confirm_dig p s)
unfolding confirm_dig
confirm_dig-Follows p s = ground (arith, length-delete_position_has p s.dig_pending)

pub confirm_place-Follows : (p : Position) (s : Session) → Follows s (confirm_place p s)
unfolding confirm_place
confirm_place-Follows p s = ground (arith, length-delete_position_has p s.place_pending)

pub confirm_block_update-Follows :
    (b : BlockUpdate) (s : Session) → Follows s (confirm_block_update b s)
unfolding confirm_block_update
confirm_block_update-Follows b s =
    ground (arith, confirm_dig-Follows (b.x, b.y, b.z) s, confirm_place-Follows (b.x, b.y, b.z) s)
