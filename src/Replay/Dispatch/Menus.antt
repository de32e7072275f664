-- ===== src/Replay/Dispatch/Menus.antt =====
-- go/internal/replay/dispatch.go: the cases of `dispatch` about windows, slots, chat and commands.
use mcbenchmark.Prelude.{ℕ, List, [], ◌∷◌, Bool, true, false, ◌||◌, if◌then◌else◌}
use mcbenchmark.Prelude.Int.{ℤ, pos, ltb_ℤ, ◌==ℤ◌}
use mcbenchmark.Replay.Dispatch.{decoded}
use mcbenchmark.Payload.Menu.{decode_inv_click, decode_creative_set}
use mcbenchmark.Payload.Open.{decode_inv_open, decode_held_slot}
use mcbenchmark.Payload.Text.{decode_cmd, decode_chat}
use mcbenchmark.Packets.Build.{
  block_place, container_click, container_close, set_creative_slot, set_carried_item, chat,
  chat_command,
}
use mcbenchmark.Packets.Ids.Serverbound
use mcbenchmark.Replay.Session.{Session, post, post_next}
use mcbenchmark.Replay.Commands.{expand_command}

module _ (accepts : ℕ → Bool) where
  unfoldable pub on_held_slot : List ℕ → Session → Session × Bool
  on_held_slot payload s = decoded (decode_held_slot payload) s (λ slot.
      if ltb_ℤ slot (pos 0) || ltb_ℤ (pos 8) slot
      then (s, false)
      else (post accepts Serverbound.set_carried_item (set_carried_item slot) s, true))

  -- `clock` is the time in milliseconds; an empty message is not handled.
  unfoldable pub say : ℤ → List ℕ → Session → Session × Bool
  say clock [] s = (s, false)
  say clock (c ∷ cs) s = (
    post accepts Serverbound.chat (chat (expand_command (c ∷ cs) s.username) clock (pos 0)) s,
    true,
  )

  unfoldable pub on_chat : ℤ → List ℕ → Session → Session × Bool
  on_chat clock payload s = decoded (decode_chat payload) s (λ msg. say clock msg s)

  unfoldable pub post_command : List ℕ → Session → Session
  post_command [] s = s
  post_command (c ∷ cs) s = post accepts Serverbound.chat_command (chat_command (c ∷ cs)) s

  unfoldable pub on_cmd : List ℕ → Session → Session × Bool
  on_cmd payload s =
      decoded (decode_cmd payload) s (λ raw. (post_command (expand_command raw s.username) s, true))

  -- The window and its state are the live ones, never the captured ones.
  unfoldable pub on_inv_click : List ℕ → Session → Session × Bool
  on_inv_click payload s = decoded (decode_inv_click payload) s (λ c. (
    post accepts Serverbound.container_click
        (container_click s.cur_window s.cur_state c.slot c.button c.click_type) s,
    true,
  ))

  unfoldable pub on_inv_close : Session → Session × Bool
  on_inv_close s =
      let s' = post accepts Serverbound.container_close (container_close s.cur_window) s in
      if s.cur_window ==ℤ pos 0 then (s, true) else (record s' { cur_window = pos 0 }, true)

  unfoldable pub on_inv_open : List ℕ → Session → Session × Bool
  on_inv_open payload s = decoded (decode_inv_open payload) s (λ o.
      if o.has_pos
      then (
        post_next accepts Serverbound.block_place (block_place (pos 0) o.x o.y o.z (pos 1)) s,
        true,
      )
      else (s, false))

  unfoldable pub on_creative_set : List ℕ → Session → Session × Bool
  on_creative_set payload s = decoded (decode_creative_set payload) s (λ c. (
    post accepts Serverbound.set_creative_slot (set_creative_slot c.slot c.item_id c.count) s,
    true,
  ))
