-- ===== src/Client/Deliver.antt =====
-- send_receive_message of network_client.cpp: the command file first, and the result path if that
-- fails. Both are an interface here; the modules Fifo and ResultPath model the two.
use nsca_fast.Prelude.{ℕ, Bool, true, false, if◌then◌else◌}
use nsca_fast.Packet.{Check}

-- What network_client.cpp sees of its parent's fifo clients and of its result path client. A
-- `true` stands for the return value 0.
pub record Delivery : Type 1 where
  pub World : Type 0
  -- parent->fifoClients && !parent->command_file.empty()
  pub has_command_file : Bool
  -- parent->resultPathClient
  pub has_result_path : Bool
  pub command : ℕ → Check → World → Bool × World
  pub write_result : Check → World → Bool × World

module _ (d : Delivery) where
  unfoldable pub try_command : ℕ → Check → d.World → Bool × d.World
  try_command thread_id check w =
      if d.has_command_file then d.command thread_id check w else (false, w)

  unfoldable pub try_result_path : Check → d.World → Bool × d.World
  try_result_path check w = if d.has_result_path then d.write_result check w else (false, w)

  -- Whether the message counts as a success.
  unfoldable pub send_receive_message : ℕ → Check → d.World → Bool × d.World
  unfolding try_command try_result_path
  send_receive_message thread_id check w =
      let (sent, w') = try_command thread_id check w in
      if sent then (true, w') else try_result_path check w'
