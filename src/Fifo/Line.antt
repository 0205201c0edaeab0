-- ===== src/Fifo/Line.antt =====
-- The buffer in which fifo_client.cpp prints a command.
use nsca_fast.Prelude.{ℕ, ◌-◌, ◌<◌, ◌≡◌, List, [], ◌∷◌, length, length-append, take-length, arith}
use nsca_fast.Prelude.Text.{length-decimal}
use nsca_fast.Packet.{Check}
use nsca_fast.Packet.Layout.{Fits}
use nsca_fast.Fifo.{command_line, output_buffer, maxlen}

length-command_line :
    (now code : ℕ) (host svc output : List ℕ)
    → length host < 64
    → length svc < 128
    → length output < 4096
    → length (
        command_line now record {
          host_name = host;
          svc_description = svc;
          return_value = code;
          plugin_output = output;
        })
      < maxlen
unfolding command_line
length-command_line now code host [] output h s o =
    simp (length-append) (omega (arith, length-decimal now, length-decimal code))
length-command_line now code host (x ∷ svc) output h s o =
    simp (length-append) (omega (arith, length-decimal now, length-decimal code))

-- For a check whose texts fit in a packet, the buffer has the whole command, its newline too:
-- `snprintf` cuts nothing.
pub output_buffer_whole : (now : ℕ) (c : Check) → Fits c → output_buffer now c ≡ command_line now c
unfolding output_buffer
output_buffer_whole now c f = take-length (command_line now c) (maxlen - 1) (
    omega (
      arith,
      length-command_line now c.return_value c.host_name c.svc_description c.plugin_output
          f.host_fits f.description_fits f.output_fits,
    ))
