-- ===== src/Replay/Counting/Handlers.antt =====
-- go/internal/replay/dispatch.go: movements, clicks on entities and the whole of `dispatch`, and how
-- they move the counters.
use mcbenchmark.Prelude.{ℕ, refl, List, Bool, true, false, arith}
use mcbenchmark.Prelude.Int.{ℤ, ◌==ℤ◌}
use mcbenchmark.Float.{Arithmetic}
use mcbenchmark.Event.Kind
use mcbenchmark.Trace.Model.{TraceEvent}
use mcbenchmark.Payload.Open.{decode_toggle}
use mcbenchmark.Replay.Session.{Session}
use mcbenchmark.Replay.Counting.{
  Follows, Follows-refl, Follows-trans, post-Follows, post-Follows_moved,
}
use mcbenchmark.Packets.Ids.Serverbound
use mcbenchmark.Packets.Build.{position_look}
use mcbenchmark.Payload.Position.{Place, decode_move, decode_reanchor}
use mcbenchmark.Payload.Text.{decode_entity_ref}
use mcbenchmark.Replay.Dispatch.Blocks.{on_swap_hands}
use mcbenchmark.Replay.Dispatch.Movement.{
  post_position, moved_view, placed_view, replay_move, replay_reanchor, on_move, on_reanchor,
  on_toggle,
}
use mcbenchmark.Replay.Dispatch.Combat.{target_of, on_entity}
use mcbenchmark.Replay.Dispatch.Switch.{handle}
use mcbenchmark.Replay.Counting.Steps.{
  decoded-Follows, if-Follows, post_action-Follows, on_dig-Follows, on_place-Follows,
  on_use_item-Follows, on_drop_item-Follows, on_held_slot-Follows, on_inv_close-Follows,
  on_inv_open-Follows, aim-Follows, on_chat-Follows, on_cmd-Follows, on_inv_click-Follows,
  on_creative_set-Follows, view-Follows,
}

module _ (fl : Arithmetic) (accepts : ℕ → Bool) where
  post_position-Follows :
      (x y z yaw pitch : ℕ) (on_ground : Bool) (s : Session)
      → Follows s (post_position fl accepts x y z yaw pitch on_ground s)
  unfolding post_position
  post_position-Follows x y z yaw pitch on_ground s = ground (
    arith,
    post-Follows accepts Serverbound.position_look (position_look x y z yaw pitch on_ground) s,
    post-Follows_moved accepts Serverbound.position_look (position_look x y z yaw pitch on_ground) s
        refl,
  )

  on_move-Follows : (payload : List ℕ) (s : Session) → Follows s (on_move fl accepts payload s).0
  unfolding on_move replay_move
  on_move-Follows payload s = decoded-Follows (decode_move payload) s _ (λ m.
      Follows-trans (view-Follows (moved_view fl accepts m s.view) s)
        (post_position-Follows _ _ _ _ _ m.on_ground _))

  reanchor-Follows : (a : Place) (s : Session) → Follows s (replay_reanchor fl accepts a s)
  unfolding replay_reanchor
  reanchor-Follows a s = ground (
    arith,
    view-Follows (placed_view fl accepts a s.view) s,
    post_position-Follows a.x a.y a.z a.yaw a.pitch true
        (record s { view = placed_view fl accepts a s.view }),
  )

  on_reanchor-Follows :
      (payload : List ℕ) (s : Session) → Follows s (on_reanchor fl accepts payload s).0
  unfolding on_reanchor
  on_reanchor-Follows payload s =
      decoded-Follows (decode_reanchor payload) s _ (λ a. reanchor-Follows a.place s)

  on_toggle-Follows :
      (start stop : ℤ) (payload : List ℕ) (s : Session)
      → Follows s (on_toggle fl accepts start stop payload s).0
  unfolding on_toggle
  on_toggle-Follows start stop payload s =
      decoded-Follows (decode_toggle payload) s _ (λ on. post-Follows accepts _ _ s)

  on_entity-Follows :
      (attacks : Bool) (payload : List ℕ) (s : Session)
      → Follows s (on_entity fl accepts attacks payload s).0
  unfolding on_entity
  on_entity-Follows attacks payload s =
      decoded-Follows (decode_entity_ref payload) s _
        (λ hint. aim-Follows accepts attacks hint.hand (target_of fl accepts hint s) s)

  -- Whatever the event is, handling it counts no event.
  pub handle-Follows :
      (clock : ℤ) (e : TraceEvent) (s : Session) → Follows s (handle fl accepts clock e s).0
  unfolding handle on_swap_hands
  handle-Follows clock e s = if-Follows (e.kind ==ℤ Kind.move) _ _ (on_move-Follows e.content s) (
      if-Follows (e.kind ==ℤ Kind.reanchor) _ _ (on_reanchor-Follows e.content s) (
        if-Follows (e.kind ==ℤ Kind.sprint_toggle) _ _ (on_toggle-Follows _ _ e.content s) (
          if-Follows (e.kind ==ℤ Kind.sneak_toggle) _ _ (on_toggle-Follows _ _ e.content s) (
            if-Follows (e.kind ==ℤ Kind.dig) _ _ (on_dig-Follows accepts e.content s) (
              if-Follows (e.kind ==ℤ Kind.place_block) _ _ (on_place-Follows accepts e.content s) (
                if-Follows (e.kind ==ℤ Kind.use_item) _ _ (on_use_item-Follows accepts e.content s)
                  (if-Follows (e.kind ==ℤ Kind.attack_entity) _ _
                    (on_entity-Follows true e.content s)
                    (if-Follows (e.kind ==ℤ Kind.interact_entity) _ _
                      (on_entity-Follows false e.content s)
                      (if-Follows (e.kind ==ℤ Kind.held_slot) _ _
                        (on_held_slot-Follows accepts e.content s)
                        (if-Follows (e.kind ==ℤ Kind.chat) _ _
                          (on_chat-Follows accepts clock e.content s)
                          (if-Follows (e.kind ==ℤ Kind.drop_item) _ _
                            (on_drop_item-Follows accepts e.content s)
                            (if-Follows (e.kind ==ℤ Kind.swap_hands) _ _
                              (post_action-Follows accepts _ s)
                              (if-Follows (e.kind ==ℤ Kind.cmd) _ _
                                (on_cmd-Follows accepts e.content s)
                                (if-Follows (e.kind ==ℤ Kind.inv_click) _ _
                                  (on_inv_click-Follows accepts e.content s)
                                  (if-Follows (e.kind ==ℤ Kind.inv_close) _ _
                                    (on_inv_close-Follows accepts s)
                                    (if-Follows (e.kind ==ℤ Kind.inv_open) _ _
                                      (on_inv_open-Follows accepts e.content s)
                                      (if-Follows (e.kind ==ℤ Kind.creative_set) _ _
                                        (on_creative_set-Follows accepts e.content s)
                                        (Follows-refl))))))))))))))))))
