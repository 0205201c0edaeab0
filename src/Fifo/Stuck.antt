-- ===== src/Fifo/Stuck.antt =====
-- When the commands of fifo_client.cpp reach the fifo, one after another.
use nsca_fast.Prelude.{
  ℕ, ◌≤◌, ◌<◌, ◌≡◌, ◌≢◌, refl, sym, subst, ◌⊎◌, inl, inr, Bool, true, false, List, [], ◌∷◌, Option,
  none, some, ltb, arith, ◌↔◌, All, Bool-cases,
}
use nsca_fast.Packet.{Check}
use nsca_fast.Fifo.{
  FifoClient, Answers, fifo, opened, Written, written, epipe, write_error, command, init_events,
  open_fifo, write_command, command_line,
}
use nsca_fast.Packet.Layout.{Fits}
use nsca_fast.Fifo.Line.{output_buffer_whole}

-- The results of commands, each at its time and with the system's answers.
unfoldable pub results : List (ℕ × Answers × Check) → FifoClient → List Bool
unfolding command
results [] c = []
results ((now, a, check) ∷ calls) c =
    let done = command now a check c in done.result ∷ results calls done.client

-- A client with a descriptor and without a stream.
pub record IsStuck (c : FifoClient) : Type 0 where
  pub descriptor : ℕ
  pub has_descriptor : c.fd ≡ some descriptor
  pub no_stream : c.fp ≡ false

pub init_events_kept :
    (now : ℕ) (a : Answers) (c : FifoClient) (k : ℕ) → c.fd ≡ some k → init_events now a c ≡ c
unfolding init_events
init_events_kept now a c k h = rw h refl

command_stuck :
    (now : ℕ) (a : Answers) (check : Check) (c : FifoClient)
    → IsStuck c
    → ((command now a check c).result ≡ false) × ((command now a check c).client ≡ c)
unfolding command
command_stuck now a check c h = elim (Bool-cases (ltb now c.block_fifo_until)) [
  | inl blocked ↦ rw blocked (refl, refl)
  | inr free ↦
      rw (free, init_events_kept now a c h.descriptor h.has_descriptor, h.no_stream) (refl, refl)
]

results_stuck :
    (calls : List (ℕ × Answers × Check)) (c : FifoClient)
    → IsStuck c
    → All (λ r. r ≡ false) (results calls c)
unfolding results
results_stuck [] c h = tt
results_stuck ((now, a, check) ∷ calls) c h = (
  (command_stuck now a check c h).0,
  results_stuck calls (command now a check c).client
      (subst IsStuck (sym (command_stuck now a check c h).1) h),
)

-- A call of `command` that may open the fifo.
pub record Opens (now : ℕ) (a : Answers) (c : FifoClient) : Type 0 where
  pub not_blocked : c.block_fifo_until ≤ now
  pub no_descriptor : c.fd ≡ none
  pub has_path : c.fifo_path ≢ []
  pub is_fifo : a.stat ≡ fifo
  pub descriptor : ℕ
  pub opens : a.open_answer ≡ opened descriptor

open_fifo_lem :
    (now : ℕ) (a : Answers) (c : FifoClient) (k : ℕ)
    → a.open_answer ≡ opened k
    → open_fifo now a c ≡ record c { fd = some k; fp = a.fdopen; block_fifo_until = 0 }
unfolding open_fifo
open_fifo_lem now a c k h = rw (h, open_fifo) refl

init_events_closed :
    (now : ℕ) (a : Answers) (c : FifoClient) (path : List ℕ) (k : ℕ)
    → path ≢ []
    → a.stat ≡ fifo
    → a.open_answer ≡ opened k
    → init_events now a (record c { fd = none; fifo_path = path })
      ≡ record c { fd = some k; fp = a.fdopen; fifo_path = path; block_fifo_until = 0 }
unfolding init_events
init_events_closed now a c [] k has_path is_fifo opens = absurd (has_path refl)
init_events_closed now a c (x ∷ xs) k has_path is_fifo opens =
    rw is_fifo (open_fifo_lem now a (record c { fd = none; fifo_path = x ∷ xs }) k opens)

init_events-Opens :
    (now : ℕ) (a : Answers) (c : FifoClient) (o : Opens now a c)
    → init_events now a c ≡ record c { fd = some o.descriptor; fp = a.fdopen; block_fifo_until = 0 }
init_events-Opens now a c o =
    rw (o.no_descriptor)
      (init_events_closed now a c c.fifo_path o.descriptor o.has_path o.is_fifo o.opens)

write_command_lem :
    (a : Answers) (buffer : List ℕ) (c : FifoClient)
    → ((write_command a buffer c).sent ≡ some buffer)
      × (((write_command a buffer c).result ≡ true) ↔ ((n : ℕ) × (a.write ≡ written n) × (0 < n)))
unfolding write_command
write_command_lem a buffer c = go a.write refl
  where
    go :
        (w : Written)
        → w ≡ a.write
        → ((write_command a buffer c).sent ≡ some buffer)
          × (((write_command a buffer c).result ≡ true)
              ↔ ((n : ℕ) × (a.write ≡ written n) × (0 < n)))
    go (written n) e = rw (← e) (
      refl,
      (
        (λ h. (n, refl, ground (arith, h))),
        (λ (k, same, some_bytes). ground (arith, same, some_bytes)),
      ),
    )
    go epipe e = rw (← e) (refl, ((λ h. absurd (cc h)), (λ (k, same, h). absurd (cc same))))
    go write_error e = rw (← e) (refl, ((λ h. absurd (cc h)), (λ (k, same, h). absurd (cc same))))

-- Once `fdopen` has failed on the opened fifo, no command succeeds any more, whatever the system
-- answers: the closed descriptor stays in `fd`, and the fifo is not opened again.
pub results_stuck_after_fdopen :
    (now : ℕ) (a : Answers) (check : Check) (calls : List (ℕ × Answers × Check)) (c : FifoClient)
    → Opens now a c
    → a.fdopen ≡ false
    → All (λ r. r ≡ false) (results ((now, a, check) ∷ calls) c)
unfolding results command
results_stuck_after_fdopen now a check calls c o fails =
    rw (free, init_events-Opens now a c o, fails)
      (
        refl,
        results_stuck calls _
            record { descriptor = o.descriptor; has_descriptor = refl; no_stream = refl },
      )
  where
    free : ltb now c.block_fifo_until ≡ false
    free = ground (arith, o.not_blocked)

-- A client whose stream is open, or whose fifo this call opens with its stream.
abbrev pub IsReady : ℕ → Answers → FifoClient → Type 0
IsReady now a c =
    ((c.block_fifo_until ≤ now) × (c.fp ≡ true) × (c.fd ≢ none))
    ⊎ (Opens now a c × (a.fdopen ≡ true))

init_events-IsReady :
    (now : ℕ) (a : Answers) (c : FifoClient) → IsReady now a c → (init_events now a c).fp ≡ true
init_events-IsReady now a c (inl (free, stream, descriptor)) = go c.fd refl
  where
    go : (fd : Option ℕ) → fd ≡ c.fd → (init_events now a c).fp ≡ true
    go none e = absurd (descriptor (sym e))
    go (some k) e = rw (init_events_kept now a c k (sym e)) stream
init_events-IsReady now a c (inr (o, stream)) = rw (init_events-Opens now a c o) stream

not_blocked-IsReady :
    (now : ℕ) (a : Answers) (c : FifoClient) → IsReady now a c → ltb now c.block_fifo_until ≡ false
not_blocked-IsReady now a c (inl (free, stream, descriptor)) = ground arith
not_blocked-IsReady now a c (inr (o, stream)) = ground (arith, o.not_blocked)

-- With a stream, and a check whose texts fit in a packet, a command hands the whole line to one
-- `write`, and it succeeds exactly if that `write` writes something.
pub command_delivers :
    (now : ℕ) (a : Answers) (check : Check) (c : FifoClient)
    → Fits check
    → IsReady now a c
    → ((command now a check c).sent ≡ some (command_line now check))
      × (((command now a check c).result ≡ true) ↔ ((n : ℕ) × (a.write ≡ written n) × (0 < n)))
unfolding command
command_delivers now a check c f r =
    rw
      (
        not_blocked-IsReady now a c r,
        init_events-IsReady now a c r,
        output_buffer_whole now check f,
      )
      (write_command_lem a (command_line now check) (init_events now a c))
