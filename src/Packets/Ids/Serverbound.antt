-- ===== src/Packets/Ids/Serverbound.antt =====
-- go/internal/mcproto/ids.go: the play packets that a client sends.
use mcbenchmark.Prelude.Int.{ℤ, pos}

abbrev pub teleport_confirm : ℤ
teleport_confirm = pos 0

abbrev pub attack : ℤ
attack = pos 1

abbrev pub chat_command : ℤ
chat_command = pos 7

abbrev pub chat : ℤ
chat = pos 9

abbrev pub chunk_batch_received : ℤ
chunk_batch_received = pos 11

abbrev pub configuration_ack : ℤ
configuration_ack = pos 16

abbrev pub container_click : ℤ
container_click = pos 18

abbrev pub container_close : ℤ
container_close = pos 19

abbrev pub interact : ℤ
interact = pos 26

abbrev pub keep_alive : ℤ
keep_alive = pos 28

abbrev pub position_look : ℤ
position_look = pos 31

abbrev pub flying : ℤ
flying = pos 33

abbrev pub abilities : ℤ
abilities = pos 40

abbrev pub block_dig : ℤ
block_dig = pos 41

abbrev pub entity_action : ℤ
entity_action = pos 42

abbrev pub player_loaded : ℤ
player_loaded = pos 44

abbrev pub pong : ℤ
pong = pos 45

abbrev pub set_carried_item : ℤ
set_carried_item = pos 53

abbrev pub set_creative_slot : ℤ
set_creative_slot = pos 56

abbrev pub arm_animation : ℤ
arm_animation = pos 63

abbrev pub block_place : ℤ
block_place = pos 66

abbrev pub use_item : ℤ
use_item = pos 67
