-- ===== src/Packets/Ids/ConfigOut.antt =====
-- go/internal/mcproto/ids.go: the configuration packets that a client sends.
use mcbenchmark.Prelude.Int.{ℤ, pos}

abbrev pub client_information : ℤ
client_information = pos 0

abbrev pub finish_ack : ℤ
finish_ack = pos 3

abbrev pub keep_alive : ℤ
keep_alive = pos 4

abbrev pub pong : ℤ
pong = pos 5

abbrev pub known_packs : ℤ
known_packs = pos 7

abbrev pub accept_code_of_conduct : ℤ
accept_code_of_conduct = pos 9
