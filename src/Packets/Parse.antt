-- ===== src/Packets/Parse.antt =====
-- go/internal/mcproto/packets.go: the packets that a client reads, each from a whole body.
use mcbenchmark.Prelude.{ℕ, zero, suc, List, [], ◌∷◌, length, ltb, if◌then◌else◌}
use mcbenchmark.Prelude.Int.{ℤ, pos, negsuc}
use mcbenchmark.Wire.Reading.{Result, err, implausible_count, Reader, pure, fail, run, ◌>>=◌, ◌>>◌}
use mcbenchmark.Wire.Bytes.{bytes}
use mcbenchmark.Wire.VarInt.{var_int}
use mcbenchmark.Wire.Fixed.{int64_be, int32_be, float64_be, float32_be}
use mcbenchmark.Packets.Position.{unpack_block_pos}

pub record SyncPosition : Type 0 where
  pub teleport_id : ℤ
  pub x : ℕ
  pub y : ℕ
  pub z : ℕ
  pub yaw : ℕ
  pub pitch : ℕ
  pub flags : ℤ

-- The velocity is read and left.
unfoldable pub read_sync_position : Reader SyncPosition
read_sync_position = do
  teleport_id ← var_int
  x ← float64_be
  y ← float64_be
  z ← float64_be
  float64_be
  float64_be
  float64_be
  yaw ← float32_be
  pitch ← float32_be
  flags ← int32_be
  pure (record {
    teleport_id = teleport_id;
    x = x;
    y = y;
    z = z;
    yaw = yaw;
    pitch = pitch;
    flags = flags;
  })

unfoldable pub parse_sync_position : List ℕ → Result SyncPosition
parse_sync_position body = run read_sync_position body

-- `OpenScreen`: the window and its type.
pub record OpenScreen : Type 0 where
  pub window_id : ℤ
  pub screen_type : ℤ

unfoldable pub read_open_screen : Reader OpenScreen
read_open_screen = do
  window_id ← var_int
  screen_type ← var_int
  pure (record { window_id = window_id; screen_type = screen_type })

unfoldable pub parse_open_screen : List ℕ → Result OpenScreen
parse_open_screen body = run read_open_screen body

unfoldable pub read_container_state_id : Reader (ℤ × ℤ)
read_container_state_id = do window_id ← var_int; state_id ← var_int; pure (window_id, state_id)

unfoldable pub parse_container_state_id : List ℕ → Result (ℤ × ℤ)
parse_container_state_id body = run read_container_state_id body

unfoldable pub parse_container_close : List ℕ → Result ℤ
parse_container_close body = run var_int body

unfoldable pub parse_keep_alive : List ℕ → Result ℤ
parse_keep_alive body = run int64_be body

unfoldable pub parse_ping : List ℕ → Result ℤ
parse_ping body = run int32_be body

pub record BlockUpdate : Type 0 where
  pub x : ℤ
  pub y : ℤ
  pub z : ℤ
  pub state_id : ℤ

unfoldable pub read_block_update : Reader BlockUpdate
read_block_update = do
  packed ← int64_be
  state_id ← var_int
  let (x, y, z) = unpack_block_pos packed
  pure (record { x = x; y = y; z = z; state_id = state_id })

unfoldable pub parse_block_update : List ℕ → Result BlockUpdate
parse_block_update body = run read_block_update body

pub record AddEntity : Type 0 where
  pub entity_id : ℤ
  pub type_id : ℤ
  pub x : ℕ
  pub y : ℕ
  pub z : ℕ

-- The entity's UUID is read and left, and so is what follows the coordinates.
unfoldable pub read_add_entity : Reader AddEntity
read_add_entity = do
  entity_id ← var_int
  bytes (pos 16)
  type_id ← var_int
  x ← float64_be
  y ← float64_be
  z ← float64_be
  pure (record { entity_id = entity_id; type_id = type_id; x = x; y = y; z = z })

unfoldable pub parse_add_entity : List ℕ → Result AddEntity
parse_add_entity body = run read_add_entity body

-- `for i := int32(0); i < n; i++ { id, err := r.VarInt(); …; out = append(out, id) }`
unfoldable pub read_ids : ℕ → Reader (List ℤ)
read_ids zero = pure []
read_ids (suc n) = do id ← var_int; ids ← read_ids n; pure (id ∷ ids)

-- `n < 0 || int(n) > r.Remaining()`
unfoldable pub ids_of_count : ℤ → Reader (List ℤ)
unfolding read_ids
ids_of_count (negsuc n) = fail implausible_count
ids_of_count (pos n) = λ bs. if ltb (length bs) n then err implausible_count else read_ids n bs

unfoldable pub read_remove_entities : Reader (List ℤ)
unfolding ids_of_count
read_remove_entities = do n ← var_int; ids_of_count n

unfoldable pub parse_remove_entities : List ℕ → Result (List ℤ)
unfolding read_remove_entities
parse_remove_entities body = run read_remove_entities body

pub record BlockPlaceRequest : Type 0 where
  pub hand : ℤ
  pub x : ℤ
  pub y : ℤ
  pub z : ℤ
  pub face : ℤ

unfoldable pub read_block_place : Reader BlockPlaceRequest
read_block_place = do
  hand ← var_int
  packed ← int64_be
  face ← var_int
  let (x, y, z) = unpack_block_pos packed
  pure (record { hand = hand; x = x; y = y; z = z; face = face })

unfoldable pub parse_block_place : List ℕ → Result BlockPlaceRequest
parse_block_place body = run read_block_place body
