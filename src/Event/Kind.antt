-- ===== src/Event/Kind.antt =====
-- go/internal/rawevent/rawevent.go: the event kinds, shared with the capture plugin.
use mcbenchmark.Prelude.Int.{ℤ, pos}

abbrev pub move : ℤ
move = pos 0

abbrev pub sprint_toggle : ℤ
sprint_toggle = pos 1

abbrev pub sneak_toggle : ℤ
sneak_toggle = pos 2

abbrev pub dig : ℤ
dig = pos 3

abbrev pub place_block : ℤ
place_block = pos 4

abbrev pub interact_entity : ℤ
interact_entity = pos 6

abbrev pub attack_entity : ℤ
attack_entity = pos 7

abbrev pub inv_open : ℤ
inv_open = pos 8

abbrev pub cmd : ℤ
cmd = pos 11

abbrev pub marker : ℤ
marker = pos 14

abbrev pub reanchor : ℤ
reanchor = pos 16

abbrev pub inventory_snapshot : ℤ
inventory_snapshot = pos 17

abbrev pub use_item : ℤ
use_item = pos 5

abbrev pub inv_click : ℤ
inv_click = pos 9

abbrev pub inv_close : ℤ
inv_close = pos 10

abbrev pub creative_set : ℤ
creative_set = pos 15

abbrev pub held_slot : ℤ
held_slot = pos 18

abbrev pub chat : ℤ
chat = pos 19

abbrev pub drop_item : ℤ
drop_item = pos 20

abbrev pub swap_hands : ℤ
swap_hands = pos 21
