-- ===== src/Parent.antt =====
-- The two ways of delivery together, as network_client.cpp reaches them through its parent:
-- fifo_client::command of the client at the thread's number, and result_path_client::write_result.
-- What the system answers to the calls is a parameter, by the number of the call. A thread's number
-- is below the number of clients, which network::network makes.
pub mod Lines
pub mod Arrive
pub mod Session
mod Tests
use nsca_fast.Prelude.{
  ℕ, ◌+◌, Bool, true, false, not, List, [], ◌∷◌, ◌++◌, Option, none, some, get_or, set, replicate,
  ◌==◌, if◌then◌else◌,
}
use nsca_fast.Prelude.Int.{ℤ, pos, negsuc, pos_part, ltb_ℤ}
use nsca_fast.Packet.{Check}
use nsca_fast.Client.Deliver.{Delivery}
use nsca_fast.Fifo.{FifoClient, Answers, fifo_client, command}
use nsca_fast.ResultPath.Write.{Files, WriteAnswers, write_result}

-- The parent's clients of the command file, the buffers that were handed to `write`, in order, and
-- the files of the result path.
pub record Outputs : Type 0 where
  pub fifo_clients : List FifoClient
  pub lines : List (List ℕ)
  pub files : Files
  pub fifo_calls : ℕ
  pub write_calls : ℕ

-- The settings of the deliveries, and the answers of the system.
pub record Outside : Type 0 where
  pub now : ℕ
  pub cnow : List ℕ
  pub command_file : List ℕ
  pub has_result_path : Bool
  pub write_enabled : Bool
  pub fifo_answers : ℕ → Answers
  pub write_answers : ℕ → WriteAnswers

abbrev pub is_empty : List ℕ → Bool
is_empty [] = true
is_empty (c ∷ cs) = false

-- The buffer of a command, if there was a write.
abbrev pub line_sent : Option (List ℕ) → List (List ℕ)
line_sent none = []
line_sent (some buffer) = buffer ∷ []

-- The number of clients, `nsca_threads_per_worker > 0 ? nsca_threads_per_worker : 1`.
abbrev pub iters : ℤ → ℕ
iters threads = if ltb_ℤ (pos 0) threads then pos_part threads else 1

-- The clients that network::network makes.
unfoldable pub fifo_clients_of : List ℕ → ℤ → List FifoClient
unfolding replicate fifo_client
fifo_clients_of path threads =
    if is_empty path then [] else replicate (iters threads) (fifo_client path)

abbrev pub is_success : ℤ → Bool
is_success (pos n) = n == 0
is_success (negsuc n) = false

module _ (o : Outside) where
  unfoldable pub command_at : ℕ → Check → Outputs → Bool × Outputs
  unfolding command fifo_client
  command_at thread_id check w =
      let r =
        command o.now (o.fifo_answers w.fifo_calls) check
          (get_or w.fifo_clients thread_id (fifo_client [])) in
      (
        r.result,
        record w {
          fifo_clients = set w.fifo_clients thread_id r.client;
          lines = w.lines ++ line_sent r.sent;
          fifo_calls = w.fifo_calls + 1;
        },
      )

  unfoldable pub write_result_of : Check → Outputs → Bool × Outputs
  unfolding write_result
  write_result_of check w =
      let (rc, files) =
        write_result o.write_enabled (o.write_answers w.write_calls) o.now o.cnow check w.files in
      (is_success rc, record w { files = files; write_calls = w.write_calls + 1 })

  abbrev pub parent_delivery : Delivery
  parent_delivery = record {
    World = Outputs;
    has_command_file = not (is_empty o.command_file);
    has_result_path = o.has_result_path;
    command = command_at;
    write_result = write_result_of;
  }
