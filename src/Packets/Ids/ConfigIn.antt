-- ===== src/Packets/Ids/ConfigIn.antt =====
-- go/internal/mcproto/ids.go: the configuration packets that a client reads.
use mcbenchmark.Prelude.Int.{ℤ, pos}

abbrev pub disconnect : ℤ
disconnect = pos 2

abbrev pub finish : ℤ
finish = pos 3

abbrev pub keep_alive : ℤ
keep_alive = pos 4

abbrev pub ping : ℤ
ping = pos 5

abbrev pub known_packs : ℤ
known_packs = pos 14

abbrev pub code_of_conduct : ℤ
code_of_conduct = pos 19
