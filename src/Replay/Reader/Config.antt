-- ===== src/Replay/Reader/Config.antt =====
-- go/internal/replay/protocol_flow.go: `handleConfig`.
use mcbenchmark.Prelude.{ℕ, List, [], Bool, if◌then◌else◌}
use mcbenchmark.Prelude.Int.{ℤ, ◌==ℤ◌}
use mcbenchmark.Packets.Ids.ConfigIn
use mcbenchmark.Packets.Ids.ConfigOut
use mcbenchmark.Packets.Build.{client_information, known_packs_empty, keep_alive, pong}
use mcbenchmark.Packets.Parse.{parse_keep_alive, parse_ping}
use mcbenchmark.Replay.Session.{Session, send, post}
use mcbenchmark.Replay.Reader.{parsed, Verdict, next_packet, next_phase, broken, unless_sent}

module _ (accepts : ℕ → Bool) where
  unfoldable pub config_keep_alive : List ℕ → Session → Session × Verdict
  config_keep_alive body s =
      parsed (parse_keep_alive body) (s, broken)
        (λ id. unless_sent next_packet (send accepts ConfigOut.keep_alive (keep_alive id) s))

  unfoldable pub config_ping : List ℕ → Session → Session × Verdict
  config_ping body s =
      parsed (parse_ping body) (s, broken)
        (λ id. unless_sent next_packet (send accepts ConfigOut.pong (pong id) s))

  unfoldable pub config_known_packs : Session → Session × Verdict
  config_known_packs s = unless_sent next_packet (
      send accepts ConfigOut.known_packs known_packs_empty
        (post accepts ConfigOut.client_information client_information s))

  -- Registry data and unknown packets want no answer.
  unfoldable pub handle_config : ℤ → List ℕ → Session → Session × Verdict
  handle_config id body s =
      if id ==ℤ ConfigIn.keep_alive
      then config_keep_alive body s
      else if id ==ℤ ConfigIn.ping
      then config_ping body s
      else if id ==ℤ ConfigIn.known_packs
      then config_known_packs s
      else if id ==ℤ ConfigIn.code_of_conduct
      then unless_sent next_packet (send accepts ConfigOut.accept_code_of_conduct [] s)
      else if id ==ℤ ConfigIn.finish
      then unless_sent next_phase (send accepts ConfigOut.finish_ack [] s)
      else if id ==ℤ ConfigIn.disconnect
      then (s, broken)
      else (s, next_packet)
