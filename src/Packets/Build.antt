-- ===== src/Packets/Build.antt =====
-- go/internal/mcproto/packets.go: the bodies of the packets that a client sends. A number that stands
-- for a float is its bit pattern.
use mcbenchmark.Prelude.{
  ℕ, zero, suc, List, [], ◌∷◌, ◌++◌, Bool, true, false, if◌then◌else◌, bit_and, bit_or, length,
  take, ltb,
}
use mcbenchmark.Prelude.Int.{ℤ, pos, negsuc}
use mcbenchmark.Prelude.Word.{to_word}
use mcbenchmark.Wire.Bytes.{put_bool}
use mcbenchmark.Wire.VarInt.{put_var_int}
use mcbenchmark.Wire.Fixed.{
  put_int64_be, put_int32_be, put_uint16_be, put_float32_be, put_float64_be, put_string,
}
use mcbenchmark.Packets.Position.{block_pos}

-- `byte(v)` and `uint16(int16(v))`
abbrev pub low_byte : ℤ → ℕ
low_byte v = to_word 256 v

abbrev pub low_short : ℤ → ℕ
low_short v = to_word 65536 v

-- `sum[i] = f(sum[i])`; past the end of the array there is nothing to change.
unfoldable pub update_at : (ℕ → ℕ) → ℕ → List ℕ → List ℕ
update_at f i [] = []
update_at f zero (b ∷ bs) = f b ∷ bs
update_at f (suc i) (b ∷ bs) = b ∷ update_at f i bs

-- `"OfflinePlayer:"`
abbrev pub offline_prefix : List ℕ
offline_prefix =
    b'O' ∷ b'f' ∷ b'f' ∷ b'l' ∷ b'i' ∷ b'n' ∷ b'e' ∷ b'P' ∷ b'l' ∷ b'a' ∷ b'y' ∷ b'e' ∷ b'r' ∷ b':'
    ∷ []

-- `md5` is `md5.Sum` of the standard library.
unfoldable pub offline_uuid : (List ℕ → List ℕ) → List ℕ → List ℕ
unfolding update_at
offline_uuid md5 name =
    let sum = md5 (offline_prefix ++ name) in
    update_at (λ b. bit_or (bit_and b 0x3f) 0x80) 8
      (update_at (λ b. bit_or (bit_and b 0x0f) 0x30) 6 sum)

unfoldable pub handshake : ℤ → List ℕ → ℕ → ℤ → List ℕ
handshake protocol host port intent =
    put_var_int protocol ++ (put_string host ++ (put_uint16_be port ++ put_var_int intent))

unfoldable pub login_start : List ℕ → List ℕ → List ℕ
login_start name uuid = put_string name ++ uuid

-- `"en_us"`
abbrev locale : List ℕ
locale = b'e' ∷ b'n' ∷ b'_' ∷ b'u' ∷ b's' ∷ []

unfoldable pub client_information : List ℕ
client_information =
    put_string locale
    ++ (8
        ∷ (put_var_int (pos 0)
            ++ (put_bool true
                ++ (0x7f
                    ∷ (put_var_int (pos 1)
                        ++ (put_bool false ++ (put_bool true ++ put_var_int (pos 0))))))))

unfoldable pub known_packs_empty : List ℕ
known_packs_empty = put_var_int (pos 0)

unfoldable pub keep_alive : ℤ → List ℕ
keep_alive id = put_int64_be id

unfoldable pub pong : ℤ → List ℕ
pong id = put_int32_be id

unfoldable pub teleport_confirm : ℤ → List ℕ
teleport_confirm teleport_id = put_var_int teleport_id

unfoldable pub chunk_batch_received : ℕ → List ℕ
chunk_batch_received chunks_per_tick = put_float32_be chunks_per_tick

unfoldable pub position_look : ℕ → ℕ → ℕ → ℕ → ℕ → Bool → List ℕ
position_look x y z yaw pitch on_ground =
    put_float64_be x
    ++ (put_float64_be y
        ++ (put_float64_be z
            ++ (put_float32_be yaw
                ++ (put_float32_be pitch ++ ((if on_ground then 1 else 0) ∷ [])))))

unfoldable pub flying : Bool → List ℕ
flying on_ground = (if on_ground then 1 else 0) ∷ []

unfoldable pub entity_action : ℤ → List ℕ
entity_action action = put_var_int (pos 0) ++ (put_var_int action ++ put_var_int (pos 0))

unfoldable pub block_dig : ℤ → ℤ → ℤ → ℤ → ℤ → ℤ → List ℕ
block_dig status x y z face sequence =
    put_var_int status ++ (put_int64_be (block_pos x y z) ++ (low_byte face ∷ put_var_int sequence))

-- 0.5 as a float32
abbrev pub cursor : ℕ
cursor = 0x3f00_0000

unfoldable pub block_place : ℤ → ℤ → ℤ → ℤ → ℤ → ℤ → List ℕ
block_place hand x y z face sequence =
    put_var_int hand
    ++ (put_int64_be (block_pos x y z)
        ++ (put_var_int face
            ++ (put_float32_be cursor
                ++ (put_float32_be cursor
                    ++ (put_float32_be cursor
                        ++ (put_bool false ++ (put_bool false ++ put_var_int sequence)))))))

unfoldable pub use_item : ℤ → ℤ → ℕ → ℕ → List ℕ
use_item hand sequence yaw pitch =
    put_var_int hand ++ (put_var_int sequence ++ (put_float32_be yaw ++ put_float32_be pitch))

unfoldable pub arm_animation : ℤ → List ℕ
arm_animation hand = put_var_int hand

unfoldable pub chat_command : List ℕ → List ℕ
chat_command command = put_string command

-- The slot is a short; the changed slots and the carried item are empty.
unfoldable pub container_click : ℤ → ℤ → ℤ → ℤ → ℤ → List ℕ
container_click window_id state_id slot button mode =
    put_var_int window_id
    ++ (put_var_int state_id
        ++ (put_uint16_be (low_short slot)
            ++ (low_byte button ∷ (put_var_int mode ++ (put_var_int (pos 0) ++ (0 ∷ []))))))

unfoldable pub container_close : ℤ → List ℕ
container_close window_id = put_var_int window_id

unfoldable pub abilities : Bool → List ℕ
abilities is_flying = (if is_flying then 2 else 0) ∷ []

-- The item of a slot, empty unless the count is positive.
unfoldable pub creative_item : ℤ → ℤ → List ℕ
creative_item item_id (pos (suc n)) =
    put_var_int (pos (suc n))
    ++ (put_var_int item_id ++ (put_var_int (pos 0) ++ put_var_int (pos 0)))
creative_item item_id (pos zero) = put_var_int (pos 0)
creative_item item_id (negsuc n) = put_var_int (pos 0)

unfoldable pub set_creative_slot : ℤ → ℤ → ℤ → List ℕ
unfolding creative_item
set_creative_slot slot item_id count = put_uint16_be (low_short slot) ++ creative_item item_id count

unfoldable pub chat : List ℕ → ℤ → ℤ → List ℕ
chat message timestamp_ms salt =
    put_string (if ltb 256 (length message) then take 256 message else message)
    ++ (put_int64_be timestamp_ms
        ++ (put_int64_be salt ++ (put_bool false ++ (put_var_int (pos 0) ++ (0 ∷ 0 ∷ 0 ∷ 0 ∷ [])))))

unfoldable pub set_carried_item : ℤ → List ℕ
set_carried_item slot = put_uint16_be (low_short slot)

unfoldable pub attack : ℤ → List ℕ
attack entity_id = put_var_int entity_id

unfoldable pub interact_at : ℤ → ℤ → Bool → List ℕ
interact_at entity_id hand sneaking =
    put_var_int entity_id ++ (put_var_int hand ++ (0 ∷ put_bool sneaking))
