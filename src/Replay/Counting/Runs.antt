-- ===== src/Replay/Counting/Runs.antt =====
-- go/internal/replay: the runs of a session. The goroutine that dispatches and the one that reads take
-- turns in any order; a handler is one step.
use mcbenchmark.Prelude.{ℕ, ◌+◌, ◌≤◌, ◌≡◌, List, [], Bool, false, Option, length, arith}
use mcbenchmark.Prelude.Int.{ℤ, pos, negsuc}
use mcbenchmark.Float.{Arithmetic}
use mcbenchmark.Trace.Model.{TraceEvent}
use mcbenchmark.Replay.Ledger.{Ledger}
use mcbenchmark.Replay.Session.{State, Counts, Session}
use mcbenchmark.Replay.Dispatch.Switch.{tally, handle, dispatch}
use mcbenchmark.Replay.Reader.{set_state}
use mcbenchmark.Replay.Reader.Loop.{read_one}
use mcbenchmark.Replay.Reader.Login.{handshake_and_login}
use mcbenchmark.Replay.Ticks.{send_idle_movement, begin_replay}
use mcbenchmark.Replay.Counting.Login.{handshake_and_login-Follows, begin_replay-Follows}
use mcbenchmark.Replay.Counting.{Follows}
use mcbenchmark.Replay.Counting.Handlers.{handle-Follows}
use mcbenchmark.Replay.Counting.Packets.{read_one-Follows, idle-Follows}

abbrev pub no_counts : Counts
no_counts = record {
  events_replayed = 0;
  events_skipped = 0;
  packets_sent = 0;
  relocations_unreproduced = 0;
  digs_sent = 0;
  digs_confirmed = 0;
  places_sent = 0;
  places_confirmed = 0;
  dig_starts_synthesised = 0;
  attacks_on_type = 0;
  attacks_off_type = 0;
  attacks_no_target = 0;
  digs_into_air = 0;
  digs_unverifiable = 0;
  chunks_unparsed = 0;
}

-- A session before its connection is dialled: the zero values of its fields.
abbrev pub fresh : List ℕ → Option Ledger → Session
fresh username blocks = record {
  username = username;
  state = State.created;
  view = record { x = 0; y = 0; z = 0; yaw = 0; pitch = 0; has_pos = false; dig_seq = pos 0 };
  moved_this_tick = false;
  idle_ticks = 0;
  cur_window = pos 0;
  cur_state = pos 0;
  events_replayed = 0;
  packets_sent = 0;
  dig_pending = [];
  place_pending = [];
  entities = [];
  blocks = blocks;
  dig_started = [];
  ended = false;
  ready = false;
  threshold = negsuc 0;
  agg = no_counts;
  writes = 0;
  sent = [];
}

module _ (fl : Arithmetic) (accepts : ℕ → Bool) where
  -- The login with the packets that the server answers, what `replayLoop` opens with, an event of the
  -- trace, a packet of the server in either phase, an idle tick, the start of a tick, and a change of
  -- state.
  pub data Step : Session → Session → Type 0 where
    event : (clock : ℤ) (e : TraceEvent) (s : Session) → Step s (dispatch fl accepts clock e s)
    packet :
        (id : ℤ) (body : List ℕ) (in_config : Bool) (s : Session)
        → Step s (read_one fl accepts id body in_config s).session
    idle : (s : Session) → Step s (send_idle_movement accepts s)
    begin_tick : (s : Session) → Step s (record s { moved_this_tick = false })
    login :
        (md5 : List ℕ → List ℕ) (protocol : ℤ) (host : List ℕ) (port : ℕ)
        (packets : List (ℤ × List ℕ)) (s : Session)
        → Step s (handshake_and_login accepts md5 protocol host port packets s).0
    begin : (enable_flight : Bool) (s : Session) → Step s (begin_replay accepts enable_flight s)
    change : (state : State) (s : Session) → Step s (set_state state s)

  pub data Reach (s : Session) : Session → Type 0 where
    here : Reach s s
    next : {t u : Session} → Reach s t → Step t u → Reach s u

  -- How many events the run dispatches.
  abbrev pub dispatched : {s t : Session} → Reach s t → ℕ
  dispatched here = 0
  dispatched (next r (event clock e s)) = dispatched r + 1
  dispatched (next r (packet id body in_config s)) = dispatched r
  dispatched (next r (idle s)) = dispatched r
  dispatched (next r (begin_tick s)) = dispatched r
  dispatched (next r (login md5 protocol host port packets s)) = dispatched r
  dispatched (next r (begin enable_flight s)) = dispatched r
  dispatched (next r (change state s)) = dispatched r

  -- The books of a session after `n` events.
  pub record IsBalanced (n : ℕ) (s : Session) : Type 0 where
    pub digs : s.agg.digs_confirmed + length s.dig_pending ≤ s.agg.digs_sent
    pub places : s.agg.places_confirmed + length s.place_pending ≤ s.agg.places_sent
    pub packets : s.packets_sent ≡ length s.sent
    pub run_packets : s.agg.packets_sent ≡ s.packets_sent
    pub written : length s.sent ≤ s.writes
    pub events : s.agg.events_replayed + s.agg.events_skipped ≡ n
    pub events_here : s.agg.events_replayed ≡ s.events_replayed

  follow : {n : ℕ} {s t : Session} → Follows s t → IsBalanced n s → IsBalanced n t
  follow f b = omega arith

  tally-IsBalanced :
      {n : ℕ} (s : Session) (handled : Bool)
      → IsBalanced n s
      → IsBalanced (n + 1) (tally (s, handled))
  unfolding tally
  tally-IsBalanced s handled b = ground arith

  Reach-IsBalanced : {s t : Session} (r : Reach s t) → IsBalanced 0 s → IsBalanced (dispatched r) t
  unfolding dispatch set_state
  Reach-IsBalanced here b = b
  Reach-IsBalanced (next r (event clock e s)) b =
      tally-IsBalanced _ (handle fl accepts clock e s).1
        (follow (handle-Follows fl accepts clock e s) (Reach-IsBalanced r b))
  Reach-IsBalanced (next r (packet id body in_config s)) b =
      follow (read_one-Follows fl accepts id body in_config s) (Reach-IsBalanced r b)
  Reach-IsBalanced (next r (idle s)) b = follow (idle-Follows accepts s) (Reach-IsBalanced r b)
  Reach-IsBalanced (next r (begin_tick s)) b = let c = Reach-IsBalanced r b in ground arith
  Reach-IsBalanced (next r (login md5 protocol host port packets s)) b =
      follow (handshake_and_login-Follows accepts md5 protocol host port packets s)
        (Reach-IsBalanced r b)
  Reach-IsBalanced (next r (begin enable_flight s)) b =
      follow (begin_replay-Follows accepts enable_flight s) (Reach-IsBalanced r b)
  Reach-IsBalanced (next r (change state s)) b = let c = Reach-IsBalanced r b in ground arith

  -- Whatever a fresh session goes through, in any order - a login, the packets that open the replay,
  -- events, packets of the server, ticks and changes of its state, each handler one step -, no more digs and placements
  -- are confirmed or still awaited than were asked for, each packet that is counted was sent, here
  -- and for the run, and each event that was dispatched is counted once, as replayed or as skipped.
  pub runs-IsBalanced :
      (username : List ℕ) (blocks : Option Ledger) {t : Session}
      (r : Reach (fresh username blocks) t)
      → IsBalanced (dispatched r) t
  runs-IsBalanced username blocks r = Reach-IsBalanced r (omega arith)
