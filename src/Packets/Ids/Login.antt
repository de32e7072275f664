-- ===== src/Packets/Ids/Login.antt =====
-- go/internal/mcproto/ids.go: the handshake and login packets.
use mcbenchmark.Prelude.Int.{ℤ, pos}

abbrev pub set_compression : ℤ
set_compression = pos 3

abbrev pub encryption_request : ℤ
encryption_request = pos 1

abbrev pub login_success : ℤ
login_success = pos 2

abbrev pub login_disconnect : ℤ
login_disconnect = pos 0

abbrev pub plugin_request : ℤ
plugin_request = pos 4

abbrev pub cookie_request : ℤ
cookie_request = pos 5

abbrev pub handshake : ℤ
handshake = pos 0

abbrev pub login_start : ℤ
login_start = pos 0

abbrev pub plugin_response : ℤ
plugin_response = pos 2

abbrev pub login_acknowledged : ℤ
login_acknowledged = pos 3

abbrev pub intent_login : ℤ
intent_login = pos 2
