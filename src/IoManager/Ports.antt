-- ===== src/IoManager/Ports.antt =====
-- The private port numbers of network/io_manager.cpp: a bit map of 16 words and the number at which
-- the next search begins. The mutex makes each operation one step.
pub mod Laws
use Prim.Native.Nat.{bit_and, bit_or}
use zktls_bench.Prelude.{
  ℕ, zero, suc, ◌+◌, ◌-◌, ◌/◌, ◌%◌, ◌^◌, Bool, true, false, not, Option, none, some, List, [], ◌∷◌,
  ◌==◌, if◌then◌else◌, get_or, set, replicate,
}

pub record Ports : Type 0 where
  pub port_map : List ℕ
  pub port_seq : ℕ

abbrev pub new_ports : Ports
new_ports = record { port_map = replicate 16 0; port_seq = 1 }

-- `MAX_PORT_SEQ`
abbrev pub max_port_seq : ℕ
max_port_seq = 1024

-- The bit of a port number.
unfoldable pub in_use : List ℕ → ℕ → Bool
in_use port_map port = not (bit_and (get_or port_map (port / 64) 0) (2 ^ (port % 64)) == 0)

unfoldable pub mark_port : List ℕ → ℕ → List ℕ
mark_port port_map port =
    set port_map (port / 64) (bit_or (get_or port_map (port / 64) 0) (2 ^ (port % 64)))

-- `port_seq++`, and back to 1 from the maximum.
unfoldable pub next_seq : ℕ → ℕ
next_seq port_seq = if port_seq + 1 == max_port_seq then 1 else port_seq + 1

-- The loop, with fuel for its rounds; with every number in use it does not end.
unfoldable pub get_unused_port : ℕ → Ports → Option (ℕ × Ports)
get_unused_port zero p = none
get_unused_port (suc fuel) p =
    let rest = get_unused_port fuel (record p { port_seq = next_seq p.port_seq }) in
    if in_use p.port_map p.port_seq
    then rest
    else some (
      p.port_seq,
      record { port_map = mark_port p.port_map p.port_seq; port_seq = next_seq p.port_seq },
    )

-- The complement is of a 64-bit word.
unfoldable pub free_used_port : Ports → ℕ → Ports
free_used_port p port = record p {
  port_map =
      set p.port_map (port / 64)
        (bit_and (get_or p.port_map (port / 64) 0) (2 ^ 64 - 1 - 2 ^ (port % 64)));
}
