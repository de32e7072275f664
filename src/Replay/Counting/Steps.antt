-- ===== src/Replay/Counting/Steps.antt =====
-- go/internal/replay: how the cases of `dispatch` on blocks, menus and texts move the counters.
use mcbenchmark.Prelude.{ℕ, List, [], ◌∷◌, Bool, true, false, if◌then◌else◌, ◌||◌, arith}
use mcbenchmark.Prelude.Int.{ℤ, pos, ltb_ℤ}
use mcbenchmark.Wire.Reading.{Result, ok, err}
use mcbenchmark.Payload.Block.{DigPayload, decode_dig, PlacePayload, decode_place, decode_use_item}
use mcbenchmark.Payload.Open.{decode_drop_item, decode_held_slot, decode_inv_open}
use mcbenchmark.Replay.Session.{WorldView, Session}
use mcbenchmark.Replay.Counting.{
  Follows, Follows-refl, Follows-trans, post-Follows, post_next-Follows, note_dig-Follows,
  note_place-Follows,
}
use mcbenchmark.Packets.Ids.Serverbound
use mcbenchmark.Packets.Build.{container_close}
use mcbenchmark.Payload.Text.{decode_cmd, decode_chat}
use mcbenchmark.Payload.Menu.{decode_inv_click, decode_creative_set}
use mcbenchmark.Replay.Dispatch.{decoded}
use mcbenchmark.Replay.Dispatch.Blocks.{
  swing, post_dig, start_first, finish_tracked, track_dig, replay_dig, replay_place,
  replay_use_item, post_action, on_dig, on_place, on_use_item, on_drop_item,
}
use mcbenchmark.Replay.Dispatch.Combat.{count_hit, hit, miss, aim}
use mcbenchmark.Replay.Dispatch.Menus.{
  on_held_slot, say, on_chat, post_command, on_cmd, on_inv_click, on_inv_close, on_inv_open,
  on_creative_set,
}

pub decoded-Follows :
    {A : Type 0} (r : Result A) (s : Session) (f : A → Session × Bool)
    → ((a : A) → Follows s (f a).0)
    → Follows s (decoded r s f).0
unfolding decoded
decoded-Follows (ok a) s f h = h a
decoded-Follows (err e) s f h = Follows-refl

pub if-Follows :
    (b : Bool) {s : Session} (x y : Session × Bool)
    → Follows s x.0
    → Follows s y.0
    → Follows s (if b then x else y).0
if-Follows true x y f g = f
if-Follows false x y f g = g

module _ (accepts : ℕ → Bool) where
  swing-Follows : (s : Session) → Follows s (swing accepts s)
  unfolding swing
  swing-Follows s = post-Follows accepts _ _ s

  post_dig-Follows :
      (status : ℤ) (d : DigPayload) (s : Session) → Follows s (post_dig accepts status d s)
  unfolding post_dig
  post_dig-Follows status d s = Follows-trans (post_next-Follows accepts _ _ s) (swing-Follows _)

  start_first-Follows : (d : DigPayload) (s : Session) → Follows s (start_first accepts d s)
  unfolding start_first
  start_first-Follows d s = ground (arith, post_dig-Follows (pos 0) d s)

  finish_tracked-Follows : (d : DigPayload) (s : Session) → Follows s (finish_tracked accepts d s)
  unfolding finish_tracked
  finish_tracked-Follows d s = ground (arith, start_first-Follows d s)

  track_dig-Follows : (d : DigPayload) (s : Session) → Follows s (track_dig accepts d s)
  unfolding track_dig
  track_dig-Follows d s = ground (arith, finish_tracked-Follows d s)

  replay_dig-Follows : (d : DigPayload) (s : Session) → Follows s (replay_dig accepts d s)
  unfolding replay_dig
  replay_dig-Follows d s =
      let sent =
        Follows-trans (track_dig-Follows d s)
          (post_dig-Follows d.action d (track_dig accepts d s)) in
      ground (
        arith,
        sent,
        note_dig-Follows (d.x, d.y, d.z) (post_dig accepts d.action d (track_dig accepts d s)),
      )

  replay_place-Follows : (p : PlacePayload) (s : Session) → Follows s (replay_place accepts p s)
  unfolding replay_place
  replay_place-Follows p s =
      Follows-trans (post_next-Follows accepts _ _ s)
        (Follows-trans (swing-Follows _) (note_place-Follows _ p.face _))

  pub post_action-Follows : (status : ℤ) (s : Session) → Follows s (post_action accepts status s)
  unfolding post_action
  post_action-Follows status s = post-Follows accepts _ _ s

  pub on_dig-Follows : (payload : List ℕ) (s : Session) → Follows s (on_dig accepts payload s).0
  unfolding on_dig
  on_dig-Follows payload s = decoded-Follows (decode_dig payload) s _ (λ d. replay_dig-Follows d s)

  pub on_place-Follows : (payload : List ℕ) (s : Session) → Follows s (on_place accepts payload s).0
  unfolding on_place
  on_place-Follows payload s =
      decoded-Follows (decode_place payload) s _ (λ p. replay_place-Follows p s)

  pub on_use_item-Follows :
      (payload : List ℕ) (s : Session) → Follows s (on_use_item accepts payload s).0
  unfolding on_use_item replay_use_item
  on_use_item-Follows payload s =
      decoded-Follows (decode_use_item payload) s _ (λ u. post_next-Follows accepts _ _ s)

  pub on_drop_item-Follows :
      (payload : List ℕ) (s : Session) → Follows s (on_drop_item accepts payload s).0
  unfolding on_drop_item
  on_drop_item-Follows payload s =
      decoded-Follows (decode_drop_item payload) s _ (λ full. post_action-Follows _ s)

  pub on_held_slot-Follows :
      (payload : List ℕ) (s : Session) → Follows s (on_held_slot accepts payload s).0
  unfolding on_held_slot
  on_held_slot-Follows payload s = decoded-Follows (decode_held_slot payload) s _ (λ slot.
      if-Follows (ltb_ℤ slot (pos 0) || ltb_ℤ (pos 8) slot) _ _ Follows-refl
        (post-Follows accepts _ _ s))

  say-Follows : (clock : ℤ) (msg : List ℕ) (s : Session) → Follows s (say accepts clock msg s).0
  unfolding say
  say-Follows clock [] s = Follows-refl
  say-Follows clock (c ∷ cs) s = post-Follows accepts _ _ s

  post_command-Follows : (cmd : List ℕ) (s : Session) → Follows s (post_command accepts cmd s)
  unfolding post_command
  post_command-Follows [] s = Follows-refl
  post_command-Follows (c ∷ cs) s = post-Follows accepts _ _ s

  pub on_inv_close-Follows : (s : Session) → Follows s (on_inv_close accepts s).0
  unfolding on_inv_close
  on_inv_close-Follows s =
      ground
        (arith, post-Follows accepts Serverbound.container_close (container_close s.cur_window) s)

  pub on_inv_open-Follows :
      (payload : List ℕ) (s : Session) → Follows s (on_inv_open accepts payload s).0
  unfolding on_inv_open
  on_inv_open-Follows payload s =
      decoded-Follows (decode_inv_open payload) s _
        (λ o. if-Follows o.has_pos _ _ (post_next-Follows accepts _ _ s) Follows-refl)

  hit-Follows :
      (attacks : Bool) (id hand : ℤ) (s : Session) → Follows s (hit accepts attacks id hand s)
  unfolding hit
  hit-Follows true id hand s = Follows-trans (post-Follows accepts _ _ s) (swing-Follows _)
  hit-Follows false id hand s = post-Follows accepts _ _ s

  miss-Follows : (s : Session) → Follows s (miss accepts s)
  unfolding miss
  miss-Follows s = ground (arith, swing-Follows s)

  pub aim-Follows :
      (attacks : Bool) (hand : ℤ) (target : ℤ × Bool × Bool) (s : Session)
      → Follows s (aim accepts attacks hand target s)
  unfolding aim count_hit
  aim-Follows attacks hand (id, exact, found) s =
      ground (arith, miss-Follows s, hit-Follows attacks id hand s)

  pub on_chat-Follows :
      (clock : ℤ) (payload : List ℕ) (s : Session) → Follows s (on_chat accepts clock payload s).0
  unfolding on_chat
  on_chat-Follows clock payload s =
      decoded-Follows (decode_chat payload) s _ (λ msg. say-Follows clock msg s)

  pub on_cmd-Follows : (payload : List ℕ) (s : Session) → Follows s (on_cmd accepts payload s).0
  unfolding on_cmd
  on_cmd-Follows payload s =
      decoded-Follows (decode_cmd payload) s _ (λ raw. post_command-Follows _ s)

  pub on_inv_click-Follows :
      (payload : List ℕ) (s : Session) → Follows s (on_inv_click accepts payload s).0
  unfolding on_inv_click
  on_inv_click-Follows payload s =
      decoded-Follows (decode_inv_click payload) s _ (λ c. post-Follows accepts _ _ s)

  pub on_creative_set-Follows :
      (payload : List ℕ) (s : Session) → Follows s (on_creative_set accepts payload s).0
  unfolding on_creative_set
  on_creative_set-Follows payload s =
      decoded-Follows (decode_creative_set payload) s _ (λ c. post-Follows accepts _ _ s)

pub view-Follows : (v : WorldView) (s : Session) → Follows s (record s { view = v })
view-Follows v s = ground arith
