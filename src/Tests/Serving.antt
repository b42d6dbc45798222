-- ===== src/Tests/Serving.antt =====
-- Runs of the theorems on the server that accepts connections.
use zktls_bench.Prelude.{ℕ, ◌≡◌, refl, ◌⊎◌, true, false, none, some, [], ◌∷◌, replicate, arith}
use zktls_bench.IoManager.Ports.{Ports, get_unused_port, in_use, mark_port, next_seq}
use zktls_bench.IoManager.Manager.{
  reserve_number, place_io, fill_slot, is_some_null, find_or, put_entry, accept,
}
use zktls_bench.IoManager.Manager.Laws.{Accepted}
use zktls_bench.IoManager.Server.{
  Server, new_server, set_taken, takes, reserves, places, Reach, start, later,
}
use zktls_bench.IoManager.Server.Laws.{is_out, IsServed, Reach-IsServed, Reach-fresh, Reach-accept}

abbrev one_used : Ports
one_used = record { port_map = 2 ∷ replicate 15 0; port_seq = 2 }

abbrev taken_one : Server ℕ
taken_one = record (new_server ℕ) { ports = one_used; taken = set_taken (λ k. false) 1 true }

abbrev reserved_one : Server ℕ
reserved_one = record taken_one {
  manager = reserve_number taken_one.manager 1 1 5;
  taken = set_taken taken_one.taken 1 false;
}

abbrev placed_one : Server ℕ
placed_one = record reserved_one {
  manager = record reserved_one.manager { pado_io_map = (1, some 42 ∷ none ∷ []) ∷ [] };
}

to_placed : Reach 1 placed_one
unfolding get_unused_port in_use mark_port next_seq reserve_number place_io fill_slot is_some_null
    find_or put_entry
to_placed =
    later (later (later start (takes 1 (new_server ℕ) refl)) (reserves 1 5 taken_one refl))
      (places 1 0 42 reserved_one refl)

Reach-IsServed_example : IsServed 1 placed_one
Reach-IsServed_example = Reach-IsServed (omega arith) to_placed

second_number :
    get_unused_port 1 placed_one.ports
    ≡ some (2, record { port_map = 6 ∷ replicate 15 0; port_seq = 3 })
unfolding get_unused_port in_use mark_port next_seq
second_number = refl

Reach-fresh_example : is_out placed_one 2 ≡ false
Reach-fresh_example = Reach-fresh {num = 1} {s = placed_one} 1 (omega arith) to_placed second_number

Reach-accept_example :
    (accept 1 placed_one.manager placed_one.ports ≡ none)
    ⊎ Accepted (accept 1 placed_one.manager placed_one.ports) 1 placed_one.manager placed_one.ports
Reach-accept_example = Reach-accept {num = 1} {s = placed_one} (omega arith) to_placed
