-- ===== src/Packets/Ids/Action.antt =====
-- go/internal/mcproto/ids.go: what a block_dig or an entity_action asks for.
use mcbenchmark.Prelude.Int.{ℤ, pos}

abbrev pub dig_start : ℤ
dig_start = pos 0

abbrev pub dig_abort : ℤ
dig_abort = pos 1

abbrev pub dig_finish : ℤ
dig_finish = pos 2

abbrev pub drop_item_stack : ℤ
drop_item_stack = pos 3

abbrev pub drop_item : ℤ
drop_item = pos 4

abbrev pub swap_hands : ℤ
swap_hands = pos 6

abbrev pub start_sneak : ℤ
start_sneak = pos 0

abbrev pub stop_sneak : ℤ
stop_sneak = pos 1

abbrev pub start_sprint : ℤ
start_sprint = pos 3

abbrev pub stop_sprint : ℤ
stop_sprint = pos 4
