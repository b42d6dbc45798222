-- ===== src/Tests/Connections.antt =====
-- Runs of the theorems on the threads of a connecting client.
use zktls_bench.Prelude.{
  ℕ, ◌<◌, ◌≡◌, ◌≢◌, refl, ap, zero, suc, some, inl, arith, if◌then◌else◌, ◌==◌, Bool, true, false,
}
use native.Mathlib.Decide.{ℕ_discrete}
use zktls_bench.IoManager.Connect.{
  asleep, woken, Connecting, waiting, sending, receiving, sent, told, Event, goes_on, delivers,
  has_number, do_connect_pado_io, Connections, new_connections, update, Step, Reach, start, later,
}
use zktls_bench.IoManager.Connect.Laws.{Ended, waiting_ends, joined_number}

abbrev after : Connections → ℕ → ℕ → Connecting → Bool → Connections
after s number i pc notifies = record {
  exchange = record s.exchange { number = number };
  threads = woken notifies (update s.threads i pc);
}

abbrev asked : Connections
asked = after new_connections 0 0 receiving false

abbrev both : Connections
both = after asked 0 1 waiting false

-- The second thread falls asleep, and the number wakes it.
abbrev sleeping : Connections
sleeping = after both 0 1 asleep false

abbrev known : Connections
known = after sleeping 7 0 told true

abbrev ready : Connections
ready = after known 7 1 sending false

abbrev done : Connections
done = after ready 7 1 (sent 7) false

value : Event → ℕ
value (delivers v) = v
value e = 0

seven : delivers 7 ≢ delivers 0
unfolding value
seven e = absurd (omega (arith, ap value e))

step :
    (s : Connections) (number i : ℕ) (pc : Connecting) (notifies : Bool) (event : Event)
    → i < 2
    → event ≢ delivers 0
    → do_connect_pado_io (has_number i) event s.exchange (s.threads i)
      ≡ some (record s.exchange { number = number }, pc, notifies)
    → Step 2 s (after s number i pc notifies)
step s number i pc notifies event h k e = record {
  notifies = notifies;
  i = i;
  i-lt = h;
  event = event;
  numbered = k;
  x' = record s.exchange { number = number };
  pc' = pc;
  taken = e;
  left = refl;
}

to_known : Reach 2 known
unfolding do_connect_pado_io ℕ_discrete
to_known =
    later
      (later
        (later
          (later start
            (step new_connections 0 0 receiving false goes_on (omega arith) (λ e. cc) refl))
          (step asked 0 1 waiting false goes_on (omega arith) (λ e. cc) refl))
        (step both 0 1 asleep false goes_on (omega arith) (λ e. cc) refl))
      (step sleeping 7 0 told true (delivers 7) (omega arith) (λ e. seven e) refl)

to_done : Reach 2 done
unfolding do_connect_pado_io ℕ_discrete
to_done =
    later (later to_known (step known 7 1 sending false goes_on (omega arith) (λ e. cc) refl))
      (step ready 7 1 (sent 7) false goes_on (omega arith) (λ e. cc) refl)

known_places : (known.threads 1 ≡ waiting) × (known.threads 0 ≡ told)
unfolding ℕ_discrete
known_places = (refl, refl)

waiting_ends_example :
    do_connect_pado_io (has_number 1) goes_on known.exchange (known.threads 1)
    ≡ some (known.exchange, sending, false)
waiting_ends_example =
    waiting_ends {num = 2} {s = known} 1 0 (omega arith) to_known (omega arith) (omega arith)
      (inl known_places.0) (inl known_places.1)

all-Ended : (j : ℕ) → j < 2 → Ended (done.threads j)
unfolding ℕ_discrete
all-Ended zero h = tt
all-Ended (suc zero) h = tt
all-Ended (suc (suc j)) h = absurd (omega arith)

joined_number_example :
    (done.exchange.number ≢ 0)
    × (done.threads 1 ≡ (if ◌==◌ 1 0 then told else sent done.exchange.number))
joined_number_example =
    joined_number {num = 2} {s = done} 1 (omega arith) to_done all-Ended refl (omega arith)
