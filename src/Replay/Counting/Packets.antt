-- ===== src/Replay/Counting/Packets.antt =====
-- go/internal/replay/protocol_flow.go: reading a packet moves the counters as `Follows` says, and so
-- does an idle tick.
use mcbenchmark.Prelude.{
  ℕ, ◌+◌, List, [], Bool, true, false, Option, none, some, if◌then◌else◌, arith,
}
use mcbenchmark.Prelude.Int.{ℤ, ◌==ℤ◌}
use mcbenchmark.Float.{Arithmetic}
use mcbenchmark.Wire.Reading.{Result, ok, err}
use mcbenchmark.Packets.Ids.Clientbound
use mcbenchmark.Packets.Ids.ConfigIn
use mcbenchmark.Packets.Ids.ConfigOut
use mcbenchmark.Packets.Ids.Serverbound
use mcbenchmark.Packets.Build.{known_packs_empty, client_information, position_look, flying}
use mcbenchmark.Packets.Parse.{
  parse_sync_position, parse_add_entity, parse_remove_entities, parse_block_update,
  parse_keep_alive, parse_ping, parse_open_screen, parse_container_state_id,
}
use mcbenchmark.Packets.Chunk.Walk.{parse_section_blocks_update}
use mcbenchmark.Replay.Ledger.{Ledger}
use mcbenchmark.Replay.Session.{State, Session, send}
use mcbenchmark.Replay.Reader.{
  parsed, Verdict, next_packet, next_phase, broken, unless_sent, fail, set_state,
}
use mcbenchmark.Replay.Reader.Chunks.{keep_column, read_chunk_of, read_chunk}
use mcbenchmark.Replay.Reader.Config.{
  config_keep_alive, config_ping, config_known_packs, handle_config,
}
use mcbenchmark.Replay.Reader.Play.{
  apply_teleport, send_or_end, confirm_position, on_sync_position, on_keep_alive, on_ping,
  on_start_configuration, on_add_entity, on_remove_entities, on_section_blocks_update,
  on_block_update, on_open_screen, on_container_state, handle_play,
}
use mcbenchmark.Replay.Reader.Loop.{after_config, after_play, read_one}
use mcbenchmark.Replay.Ticks.{idle_packet, send_idle_movement}
use mcbenchmark.Replay.Counting.{
  Follows, Follows-refl, Follows-trans, send-Follows, post-Follows, confirm_block_update-Follows,
}
use mcbenchmark.Replay.Counting.Steps.{view-Follows}

parsed-Follows :
    {A : Type 0} (r : Result A) {s : Session} (f : A → Session)
    → ((a : A) → Follows s (f a))
    → Follows s (parsed r s f)
unfolding parsed
parsed-Follows (ok a) f h = h a
parsed-Follows (err e) f h = Follows-refl

pub parsed_pair-Follows :
    {A B : Type 0} (r : Result A) {s : Session} (other : Session × B) (f : A → Session × B)
    → Follows s other.0
    → ((a : A) → Follows s (f a).0)
    → Follows s (parsed r other f).0
unfolding parsed
parsed_pair-Follows (ok a) other f g h = h a
parsed_pair-Follows (err e) other f g h = g

pub unless_sent-Follows :
    (v : Verdict) {s : Session} (t : Session × Bool) → Follows s t.0 → Follows s (unless_sent v t).0
unfolding unless_sent
unless_sent-Follows v (t, true) f = f
unless_sent-Follows v (t, false) f = f

fail-Follows : (s : Session) → Follows s (fail s)
unfolding fail
fail-Follows s = ground arith

pub set_state-Follows : (state : State) (s : Session) → Follows s (set_state state s)
unfolding set_state
set_state-Follows state s = ground arith

choose-Follows :
    {B : Type 0} (b : Bool) {s : Session} (x y : Session × B)
    → Follows s x.0
    → Follows s y.0
    → Follows s (if b then x else y).0
choose-Follows true x y f g = f
choose-Follows false x y f g = g

learned-Follows : (blocks : Option Ledger) (s : Session) → Follows s (record s { blocks = blocks })
learned-Follows blocks s = ground arith

read_chunk-Follows :
    (blocks : Option Ledger) (body : List ℕ) (s : Session) → Follows s (read_chunk_of blocks body s)
unfolding read_chunk_of keep_column
read_chunk-Follows none body s = Follows-refl
read_chunk-Follows (some l) body s = ground arith

module _ (accepts : ℕ → Bool) where
  handle_config-Follows :
      (id : ℤ) (body : List ℕ) (s : Session) → Follows s (handle_config accepts id body s).0
  unfolding handle_config config_keep_alive config_ping config_known_packs
  handle_config-Follows id body s =
      choose-Follows (id ==ℤ ConfigIn.keep_alive) _ _
        (parsed_pair-Follows (parse_keep_alive body) _ _ Follows-refl
          (λ n. unless_sent-Follows next_packet _ (send-Follows accepts _ _ s)))
        (choose-Follows (id ==ℤ ConfigIn.ping) _ _
          (parsed_pair-Follows (parse_ping body) _ _ Follows-refl
            (λ n. unless_sent-Follows next_packet _ (send-Follows accepts _ _ s)))
          (choose-Follows (id ==ℤ ConfigIn.known_packs) _ _
            (unless_sent-Follows next_packet _ (
              Follows-trans (post-Follows accepts ConfigOut.client_information client_information s)
                (send-Follows accepts ConfigOut.known_packs known_packs_empty _)))
            (choose-Follows (id ==ℤ ConfigIn.code_of_conduct) _ _
              (unless_sent-Follows next_packet _ (send-Follows accepts _ _ s))
              (choose-Follows (id ==ℤ ConfigIn.finish) _ _
                (unless_sent-Follows next_phase _ (send-Follows accepts _ _ s))
                (choose-Follows (id ==ℤ ConfigIn.disconnect) _ _ Follows-refl Follows-refl)))))

  send_or_end-Follows :
      (id : ℤ) (body : List ℕ) (f : Session → Session) (s : Session)
      → ((t : Session) → Follows t (f t))
      → Follows s (send_or_end accepts id body f s).0
  unfolding send_or_end
  send_or_end-Follows id body f s h =
      choose-Follows (send accepts id body s).1 _ _
        (Follows-trans (send-Follows accepts id body s) (h _))
        (Follows-trans (send-Follows accepts id body s) (fail-Follows _))

  confirm_position-Follows : (s : Session) → Follows s (confirm_position accepts s)
  unfolding confirm_position
  confirm_position-Follows s =
      let v = s.view in
      ground (
        arith,
        post-Follows accepts Serverbound.position_look
            (position_look v.x v.y v.z v.yaw v.pitch true) s,
      )

  start_configuration-Follows : (s : Session) → Follows s (on_start_configuration accepts s)
  unfolding on_start_configuration
  start_configuration-Follows s =
      Follows-trans (post-Follows accepts Serverbound.configuration_ack [] s)
        (set_state-Follows _ _)

  sync_position-Follows :
      (fl : Arithmetic) (body : List ℕ) (s : Session)
      → Follows s (on_sync_position accepts fl body s).0
  unfolding on_sync_position
  sync_position-Follows fl body s =
      parsed_pair-Follows (parse_sync_position body) _ _ (fail-Follows s) (λ p.
        Follows-trans (view-Follows (apply_teleport fl p s.view) s)
          (send_or_end-Follows _ _ (confirm_position accepts) _ confirm_position-Follows))

  keep_alive-Follows : (body : List ℕ) (s : Session) → Follows s (on_keep_alive accepts body s).0
  unfolding on_keep_alive
  keep_alive-Follows body s =
      parsed_pair-Follows (parse_keep_alive body) _ _ (fail-Follows s)
        (λ n. send_or_end-Follows _ _ (λ t. t) s (λ t. Follows-refl))

after_config-Follows :
    {s : Session} (r : Session × Verdict) → Follows s r.0 → Follows s (after_config r).session
unfolding after_config
after_config-Follows (s, next_packet) f = f
after_config-Follows (s, next_phase) f = Follows-trans f (set_state-Follows _ s)
after_config-Follows (s, broken) f = Follows-trans f (fail-Follows s)

after_play-Follows :
    {s : Session} (id : ℤ) (r : Session × Bool)
    → Follows s r.0
    → Follows s (after_play id r).session
unfolding after_play
after_play-Follows id (s, ends) f = f

module _ (fl : Arithmetic) (accepts : ℕ → Bool) where
  handle_play-Follows :
      (id : ℤ) (body : List ℕ) (s : Session) → Follows s (handle_play fl accepts id body s).0
  unfolding handle_play on_add_entity on_remove_entities read_chunk on_section_blocks_update
      on_block_update on_ping on_open_screen on_container_state
  handle_play-Follows id body s =
      choose-Follows (id ==ℤ Clientbound.sync_position) _ _
        (sync_position-Follows accepts fl body s)
        (choose-Follows (id ==ℤ Clientbound.add_entity) _ _
          (parsed-Follows (parse_add_entity body) _ (λ a. ground arith))
          (choose-Follows (id ==ℤ Clientbound.remove_entities) _ _
            (parsed-Follows (parse_remove_entities body) _ (λ a. ground arith))
            (choose-Follows (id ==ℤ Clientbound.level_chunk) _ _
              (read_chunk-Follows s.blocks body s)
              (choose-Follows (id ==ℤ Clientbound.section_blocks_update) _ _
                (parsed-Follows (parse_section_blocks_update body) _ (λ ws. learned-Follows _ s))
                (choose-Follows (id ==ℤ Clientbound.block_update) _ _
                  (parsed-Follows (parse_block_update body) _
                    (λ b. confirm_block_update-Follows b s))
                  (choose-Follows (id ==ℤ Clientbound.keep_alive) _ _
                    (keep_alive-Follows accepts body s)
                    (choose-Follows (id ==ℤ Clientbound.ping) _ _
                      (parsed-Follows (parse_ping body) _ (λ n. post-Follows accepts _ _ s))
                      (choose-Follows (id ==ℤ Clientbound.chunk_batch_finished) _ _
                        (post-Follows accepts _ _ s)
                        (choose-Follows (id ==ℤ Clientbound.open_screen) _ _
                          (parsed-Follows (parse_open_screen body) _ (λ o. ground arith))
                          (choose-Follows (id ==ℤ Clientbound.container_set_content) _ _
                            (parsed-Follows (parse_container_state_id body) _ (λ o. ground arith))
                            (choose-Follows (id ==ℤ Clientbound.container_set_slot) _ _
                              (parsed-Follows (parse_container_state_id body) _ (λ o. ground arith))
                              (choose-Follows (id ==ℤ Clientbound.container_close) _ _
                                (ground arith)
                                (choose-Follows (id ==ℤ Clientbound.start_configuration) _ _
                                  (start_configuration-Follows accepts s)
                                  (choose-Follows (id ==ℤ Clientbound.disconnect) _ _
                                    (fail-Follows s) Follows-refl))))))))))))))

  pub read_one-Follows :
      (id : ℤ) (body : List ℕ) (in_config : Bool) (s : Session)
      → Follows s (read_one fl accepts id body in_config s).session
  unfolding read_one
  read_one-Follows id body true s = after_config-Follows _ (handle_config-Follows accepts id body s)
  read_one-Follows id body false s =
      after_play-Follows id (handle_play fl accepts id body s) (handle_play-Follows id body s)

module _ (accepts : ℕ → Bool) where
  idle_packet-Follows : (s : Session) → Follows s (idle_packet accepts s)
  unfolding idle_packet
  idle_packet-Follows s =
      let v = s.view in
      ground (
        arith,
        post-Follows accepts Serverbound.position_look
            (position_look v.x v.y v.z v.yaw v.pitch true) s,
        post-Follows accepts Serverbound.flying (flying true) s,
      )

  pub idle-Follows : (s : Session) → Follows s (send_idle_movement accepts s)
  unfolding send_idle_movement
  idle-Follows s = ground (arith, idle_packet-Follows (record s { idle_ticks = s.idle_ticks + 1 }))
