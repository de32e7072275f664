-- ===== src/Replay/Counting/Login.antt =====
-- go/internal/replay/protocol_flow.go: the login and the packets before the first pass move the counters
-- as `Follows` says.
use mcbenchmark.Prelude.{
  ℕ, List, [], ◌∷◌, Bool, true, false, if◌then◌else◌, arith, inl, inr, Bool-cases,
}
use mcbenchmark.Prelude.Int.{ℤ, ◌==ℤ◌}
use mcbenchmark.Wire.Reading.{run}
use mcbenchmark.Wire.VarInt.{var_int}
use mcbenchmark.Packets.Ids.Login as Numbers
use mcbenchmark.Packets.Ids.Serverbound
use mcbenchmark.Packets.Build.{login_start, offline_uuid, abilities}
use mcbenchmark.Replay.Session.{State, Session, send}
use mcbenchmark.Replay.Reader.{Verdict, next_packet, next_phase, broken}
use mcbenchmark.Replay.Reader.Login.{
  enable_compression, reply_plugin_request, enter_configuration, handle_login, login_loop,
  and_then_login, handshake_and_login,
}
use mcbenchmark.Replay.Ticks.{begin_replay}
use mcbenchmark.Replay.Counting.{Follows, Follows-refl, Follows-trans, send-Follows, post-Follows}
use mcbenchmark.Replay.Counting.Packets.{
  parsed_pair-Follows, unless_sent-Follows, set_state-Follows,
}

threshold-Follows : (t : ℤ) (s : Session) → Follows s (record s { threshold = t })
threshold-Follows t s = ground arith

enable_compression-Follows : (body : List ℕ) (s : Session) → Follows s (enable_compression body s).0
unfolding enable_compression
enable_compression-Follows body s =
    parsed_pair-Follows (run var_int body) (s, broken) _ Follows-refl (λ t. threshold-Follows t s)

module _ (accepts : ℕ → Bool) where
  reply_plugin_request-Follows :
      (body : List ℕ) (s : Session) → Follows s (reply_plugin_request accepts body s).0
  unfolding reply_plugin_request
  reply_plugin_request-Follows body s =
      parsed_pair-Follows (run var_int body) (s, broken) _ Follows-refl
        (λ id. unless_sent-Follows next_packet _ (send-Follows accepts _ _ s))

  enter_configuration-Follows :
      (s : Session) (r : Session × Verdict)
      → Follows s r.0
      → Follows s (enter_configuration accepts r).0
  unfolding enter_configuration
  enter_configuration-Follows s (t, next_phase) f =
      Follows-trans f (set_state-Follows State.configuration t)
  enter_configuration-Follows s (t, next_packet) f = f
  enter_configuration-Follows s (t, broken) f = f

  handle_login-Follows :
      (id : ℤ) (body : List ℕ) (s : Session) → Follows s (handle_login accepts id body s).0
  unfolding handle_login
  handle_login-Follows id body s = elim (Bool-cases (id ==ℤ Numbers.set_compression)) [
    | inl a ↦ rw (handle_login, a) (enable_compression-Follows body s)
    | inr a ↦ elim (Bool-cases (id ==ℤ Numbers.login_success)) [
      | inl b ↦
          rw (handle_login, a, b)
            (enter_configuration-Follows s _ (
              unless_sent-Follows next_phase _
                (send-Follows accepts Numbers.login_acknowledged [] s)))
      | inr b ↦ elim (Bool-cases (id ==ℤ Numbers.plugin_request)) [
        | inl c ↦ rw (handle_login, a, b, c) (reply_plugin_request-Follows body s)
        | inr c ↦ elim (Bool-cases (id ==ℤ Numbers.cookie_request)) [
          | inl d ↦ rw (handle_login, a, b, c, d) Follows-refl
          | inr d ↦ rw (handle_login, a, b, c, d) Follows-refl
        ]
      ]
    ]
  ]

  login_loop-Follows :
      (packets : List (ℤ × List ℕ)) (s : Session) → Follows s (login_loop accepts packets s).0
  unfolding login_loop
  login_loop-Follows [] s = Follows-refl
  login_loop-Follows ((id, body) ∷ packets) s =
      go (handle_login accepts id body s) (handle_login-Follows id body s)
        (λ t. login_loop-Follows packets t)
    where
      go :
          (r : Session × Verdict)
          → Follows s r.0
          → ((t : Session) → Follows t (login_loop accepts packets t).0)
          → Follows s
              (elim r.1 as (λ v. Session × Verdict) [
                | next_packet ↦ login_loop accepts packets r.0
                | next_phase ↦ (r.0, next_phase)
                | broken ↦ (r.0, broken)
              ]).0
      go (t, next_packet) f later = Follows-trans f (later t)
      go (t, next_phase) f later = f
      go (t, broken) f later = f

  and_then_login-Follows :
      (md5 : List ℕ → List ℕ) (packets : List (ℤ × List ℕ)) (s : Session) (r : Session × Bool)
      → Follows s r.0
      → Follows s (and_then_login accepts md5 packets r).0
  unfolding and_then_login
  and_then_login-Follows md5 packets s (t, false) f = f
  and_then_login-Follows md5 packets s (t, true) f =
      let body = login_start t.username (offline_uuid md5 t.username) in
      go (send accepts Numbers.login_start body t) (send-Follows accepts Numbers.login_start body t)
    where
      go :
          (r : Session × Bool)
          → Follows t r.0
          → Follows s (if r.1 then login_loop accepts packets r.0 else (r.0, broken)).0
      go (u, true) g = Follows-trans f (Follows-trans g (login_loop-Follows packets u))
      go (u, false) g = Follows-trans f g

  pub handshake_and_login-Follows :
      (md5 : List ℕ → List ℕ) (protocol : ℤ) (host : List ℕ) (port : ℕ)
      (packets : List (ℤ × List ℕ)) (s : Session)
      → Follows s (handshake_and_login accepts md5 protocol host port packets s).0
  unfolding handshake_and_login
  handshake_and_login-Follows md5 protocol host port packets s =
      and_then_login-Follows md5 packets s _
        (Follows-trans (set_state-Follows State.login s) (send-Follows accepts _ _ _))

  pub begin_replay-Follows :
      (enable_flight : Bool) (s : Session) → Follows s (begin_replay accepts enable_flight s)
  unfolding begin_replay
  begin_replay-Follows true s =
      Follows-trans (post-Follows accepts Serverbound.player_loaded [] s)
        (post-Follows accepts Serverbound.abilities (abilities true) _)
  begin_replay-Follows false s = post-Follows accepts Serverbound.player_loaded [] s
