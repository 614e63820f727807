-- ===== src/Blocking/Success.antt =====
-- An OK packet from the network to what the blocking call returns.
use trilogy.Prelude.{◌≡◌}
use trilogy.Protocol.Types.{OkPacket}
use trilogy.Client.Connection.{Connection}

-- `conn` has what the packet says, and its bytes and its world are those of `c`.
record Taken {W : Type 0} (p : OkPacket) (c conn : Connection W) : Type 0 where
  pub affected_rows : conn.affected_rows ≡ p.affected_rows
  pub last_insert_id : conn.last_insert_id ≡ p.last_insert_id
  pub server_status : conn.server_status ≡ p.status_flags
  pub warning_count : conn.warning_count ≡ p.warning_count
  pub io : conn.io ≡ c.io
  pub world : conn.world ≡ c.world
