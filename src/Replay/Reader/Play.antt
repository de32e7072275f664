-- ===== src/Replay/Reader/Play.antt =====
-- go/internal/replay/protocol_flow.go: `applyTeleport` and `handlePlay`. A handler returns the session
-- and whether it ends; `start_configuration` is told apart by the loop.
use mcbenchmark.Prelude.{ℕ, List, [], ◌==◌, bit_and, Bool, true, false, if◌then◌else◌}
use mcbenchmark.Prelude.Int.{ℤ, pos, ◌==ℤ◌}
use mcbenchmark.Prelude.Word.{u32}
use mcbenchmark.Float.{Arithmetic}
use mcbenchmark.Packets.Ids.Clientbound
use mcbenchmark.Packets.Ids.Serverbound
use mcbenchmark.Packets.Build.{
  teleport_confirm, position_look, keep_alive, pong, chunk_batch_received,
}
use mcbenchmark.Packets.Parse.{
  SyncPosition, parse_sync_position, parse_add_entity, parse_remove_entities, parse_block_update,
  parse_keep_alive, parse_ping, parse_open_screen, parse_container_state_id,
}
use mcbenchmark.Packets.Chunk.Walk.{parse_section_blocks_update}
use mcbenchmark.Replay.Entities.{add, remove}
use mcbenchmark.Replay.Session.{State, WorldView, Session, send, post, confirm_block_update}
use mcbenchmark.Replay.Reader.{parsed, fail, set_state}
use mcbenchmark.Replay.Reader.Chunks.{read_chunk, learn_all}

-- 16 as a float32
abbrev pub chunks_per_tick : ℕ
chunks_per_tick = 0x4180_0000

-- `p.Flags&flag != 0`
abbrev pub has_flag : ℤ → ℕ → Bool
has_flag flags flag = if bit_and (u32 flags) flag == 0 then false else true

module _ (fl : Arithmetic) where
  -- Each coordinate is an offset where its flag is set.
  unfoldable pub apply_teleport : SyncPosition → WorldView → WorldView
  apply_teleport p v = record v {
    x = if has_flag p.flags 1 then fl.add v.x p.x else p.x;
    y = if has_flag p.flags 2 then fl.add v.y p.y else p.y;
    z = if has_flag p.flags 4 then fl.add v.z p.z else p.z;
    yaw = if has_flag p.flags 8 then fl.add_32 v.yaw p.yaw else p.yaw;
    pitch = if has_flag p.flags 16 then fl.add_32 v.pitch p.pitch else p.pitch;
    has_pos = true;
  }

-- The session, and whether it ends.
abbrev pub Step : Type 0
Step = Session → Session × Bool

-- A packet that is not read is passed over.
abbrev pub quietly : (Session → Session) → Step
quietly f s = (f s, false)

module _ (accepts : ℕ → Bool) where
  -- `if err := s.send(…); err != nil { s.fail(…); return true }`
  unfoldable pub send_or_end : ℤ → List ℕ → (Session → Session) → Step
  send_or_end id body and_then s =
      let (s', sent) = send accepts id body s in
      if sent then (and_then s', false) else (fail s', true)

  unfoldable pub confirm_position : Session → Session
  confirm_position s =
      let v = s.view in
      let s' =
        post accepts Serverbound.position_look (position_look v.x v.y v.z v.yaw v.pitch true) s in
      record s' { ready = true }

  unfoldable pub on_sync_position : Arithmetic → List ℕ → Step
  on_sync_position fl body s =
      parsed (parse_sync_position body) (fail s, true)
        (λ p.
          let view = apply_teleport fl p s.view in
          send_or_end Serverbound.teleport_confirm (teleport_confirm p.teleport_id) confirm_position
            (record s { view = view }))

  unfoldable pub on_keep_alive : List ℕ → Step
  on_keep_alive body s =
      parsed (parse_keep_alive body) (fail s, true)
        (λ id. send_or_end Serverbound.keep_alive (keep_alive id) (λ s'. s') s)

  unfoldable pub on_ping : List ℕ → Session → Session
  on_ping body s = parsed (parse_ping body) s (λ id. post accepts Serverbound.pong (pong id) s)

  unfoldable pub on_start_configuration : Session → Session
  on_start_configuration s =
      set_state State.configuration (post accepts Serverbound.configuration_ack [] s)

unfoldable pub on_add_entity : List ℕ → Session → Session
on_add_entity body s =
    parsed (parse_add_entity body) s (λ a. record s { entities = add a s.entities })

unfoldable pub on_remove_entities : List ℕ → Session → Session
on_remove_entities body s =
    parsed (parse_remove_entities body) s (λ ids. record s { entities = remove ids s.entities })

unfoldable pub on_section_blocks_update : List ℕ → Session → Session
on_section_blocks_update body s =
    parsed (parse_section_blocks_update body) s (λ ws. record s { blocks = learn_all ws s.blocks })

unfoldable pub on_block_update : List ℕ → Session → Session
on_block_update body s = parsed (parse_block_update body) s (λ b. confirm_block_update b s)

unfoldable pub on_open_screen : List ℕ → Session → Session
on_open_screen body s =
    parsed (parse_open_screen body) s (λ o. record s { cur_window = o.window_id })

unfoldable pub on_container_state : List ℕ → Session → Session
on_container_state body s =
    parsed (parse_container_state_id body) s (λ ids. record s { cur_state = ids.1 })

module _ (fl : Arithmetic) (accepts : ℕ → Bool) where
  -- `switch id`
  unfoldable pub handle_play : ℤ → List ℕ → Step
  handle_play id body s =
      if id ==ℤ Clientbound.sync_position
      then on_sync_position accepts fl body s
      else if id ==ℤ Clientbound.add_entity
      then quietly (on_add_entity body) s
      else if id ==ℤ Clientbound.remove_entities
      then quietly (on_remove_entities body) s
      else if id ==ℤ Clientbound.level_chunk
      then quietly (read_chunk body) s
      else if id ==ℤ Clientbound.section_blocks_update
      then quietly (on_section_blocks_update body) s
      else if id ==ℤ Clientbound.block_update
      then quietly (on_block_update body) s
      else if id ==ℤ Clientbound.keep_alive
      then on_keep_alive accepts body s
      else if id ==ℤ Clientbound.ping
      then quietly (on_ping accepts body) s
      else if id ==ℤ Clientbound.chunk_batch_finished
      then (quietly
          (post accepts Serverbound.chunk_batch_received (chunk_batch_received chunks_per_tick)) s)
      else if id ==ℤ Clientbound.open_screen
      then quietly (on_open_screen body) s
      else if id ==ℤ Clientbound.container_set_content
      then quietly (on_container_state body) s
      else if id ==ℤ Clientbound.container_set_slot
      then quietly (on_container_state body) s
      else if id ==ℤ Clientbound.container_close
      then (record s { cur_window = pos 0 }, false)
      else if id ==ℤ Clientbound.start_configuration
      then quietly (on_start_configuration accepts) s
      else if id ==ℤ Clientbound.disconnect
      then (fail s, true)
      else (s, false)
