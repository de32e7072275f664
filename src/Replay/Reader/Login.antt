-- ===== src/Replay/Reader/Login.antt =====
-- go/internal/replay/protocol_flow.go: `handshakeAndLogin`, and `replyPluginRequest` of dispatch.go.
use mcbenchmark.Prelude.{ℕ, List, [], ◌∷◌, ◌++◌, Bool, true, false, if◌then◌else◌}
use mcbenchmark.Prelude.Int.{ℤ, ◌==ℤ◌}
use mcbenchmark.Wire.Reading.{run}
use mcbenchmark.Wire.Bytes.{put_bool}
use mcbenchmark.Wire.VarInt.{put_var_int, var_int}
use mcbenchmark.Packets.Ids.Login as Numbers
use mcbenchmark.Packets.Build.{handshake, login_start, offline_uuid}
use mcbenchmark.Replay.Session.{State, Session, send}
use mcbenchmark.Replay.Reader.{
  parsed, Verdict, next_packet, next_phase, broken, set_state, unless_sent,
}

-- `s.codec.EnableCompression(int(th))`
unfoldable pub enable_compression : List ℕ → Session → Session × Verdict
enable_compression body s =
    parsed (run var_int body) (s, broken) (λ t. (record s { threshold = t }, next_packet))

module _ (accepts : ℕ → Bool) where
  unfoldable pub reply_plugin_request : List ℕ → Session → Session × Verdict
  reply_plugin_request body s =
      parsed (run var_int body) (s, broken)
        (λ id.
          unless_sent next_packet
            (send accepts Numbers.plugin_response (put_var_int id ++ put_bool false) s))

  unfoldable pub enter_configuration : Session × Verdict → Session × Verdict
  enter_configuration (s, next_phase) = (set_state State.configuration s, next_phase)
  enter_configuration (s, next_packet) = (s, next_packet)
  enter_configuration (s, broken) = (s, broken)

  -- `switch id`: an encryption request, a disconnect and an unknown packet end the login.
  unfoldable pub handle_login : ℤ → List ℕ → Session → Session × Verdict
  handle_login id body s =
      if id ==ℤ Numbers.set_compression
      then enable_compression body s
      else if id ==ℤ Numbers.login_success
      then enter_configuration
          (unless_sent next_phase (send accepts Numbers.login_acknowledged [] s))
      else if id ==ℤ Numbers.plugin_request
      then reply_plugin_request body s
      else if id ==ℤ Numbers.cookie_request
      then (s, next_packet)
      else (s, broken)

  -- The packets that come; where they run out, the read fails.
  unfoldable pub login_loop : List (ℤ × List ℕ) → Session → Session × Verdict
  login_loop [] s = (s, broken)
  login_loop ((id, body) ∷ packets) s =
      let (s', verdict) = handle_login id body s in
      elim verdict [
        | next_packet ↦ login_loop packets s'
        | next_phase ↦ (s', next_phase)
        | broken ↦ (s', broken)
      ]

  unfoldable pub and_then_login :
      (List ℕ → List ℕ) → List (ℤ × List ℕ) → Session × Bool → Session × Verdict
  and_then_login md5 packets (s, false) = (s, broken)
  and_then_login md5 packets (s, true) =
      let (s', sent) =
        send accepts Numbers.login_start (login_start s.username (offline_uuid md5 s.username)) s in
      if sent then login_loop packets s' else (s', broken)

  unfoldable pub handshake_and_login :
      (List ℕ → List ℕ) → ℤ → List ℕ → ℕ → List (ℤ × List ℕ) → Session → Session × Verdict
  handshake_and_login md5 protocol host port packets s = and_then_login md5 packets (
      send accepts Numbers.handshake (handshake protocol host port Numbers.intent_login)
        (set_state State.login s))
