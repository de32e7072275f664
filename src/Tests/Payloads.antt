-- ===== src/Tests/Payloads.antt =====
-- Payloads of events, written and read back.
use mcbenchmark.Prelude.{[], ◌∷◌, true, arith}
use mcbenchmark.Prelude.Int.{pos, negsuc}
use mcbenchmark.Payload.Open
use mcbenchmark.Payload.Inventory
use mcbenchmark.Payload.Position
use mcbenchmark.Tests.Samples.{spot}

abbrev chest : Open.InvOpenPayload
chest = record { container_type = pos 2; has_pos = true; x = pos 5; y = negsuc 59; z = pos 1 }

abbrev bag : Inventory.InventoryPayload
bag = record {
  selected_slot = pos 4;
  items =
      record { slot = pos 0; id = 105 ∷ 114 ∷ []; count = pos 1 }
      ∷ record { slot = pos 8; id = []; count = pos 64 }
      ∷ [];
}

abbrev walk : Position.MovePayload
walk = record { dx = 1065353216; dy = 0; dz = 3212836864; yaw = 0; pitch = 1; on_ground = true }

spot_fits : Position.IsPlaceBits spot
spot_fits = record {
  x_fits = omega arith;
  y_fits = omega arith;
  z_fits = omega arith;
  yaw_fits = omega arith;
  pitch_fits = omega arith;
}
