-- ===== src/Packets/Ids/Clientbound.antt =====
-- go/internal/mcproto/ids.go: the play packets that a client reads.
use mcbenchmark.Prelude.Int.{ℤ, pos}

abbrev pub container_close : ℤ
container_close = pos 17

abbrev pub container_set_content : ℤ
container_set_content = pos 18

abbrev pub container_set_slot : ℤ
container_set_slot = pos 20

abbrev pub block_update : ℤ
block_update = pos 8

abbrev pub disconnect : ℤ
disconnect = pos 32

abbrev pub chunk_batch_finished : ℤ
chunk_batch_finished = pos 11

abbrev pub keep_alive : ℤ
keep_alive = pos 44

abbrev pub open_screen : ℤ
open_screen = pos 59

abbrev pub ping : ℤ
ping = pos 61

abbrev pub sync_position : ℤ
sync_position = pos 72

abbrev pub start_configuration : ℤ
start_configuration = pos 118

abbrev pub add_entity : ℤ
add_entity = pos 1

abbrev pub remove_entities : ℤ
remove_entities = pos 77

abbrev pub level_chunk : ℤ
level_chunk = pos 45

abbrev pub section_blocks_update : ℤ
section_blocks_update = pos 84
