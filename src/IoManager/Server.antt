-- ===== src/IoManager/Server.antt =====
-- The server side of network/io_manager.cpp as a whole: connecting threads that take a number, reserve
-- its slots and place their connections, an owner that accepts, and the listening thread that clears.
pub mod Maps
pub mod Numbers
pub mod Laws
use Prim.Native.Nat.{ℕ}
use zktls_bench.Prelude.{◌≡◌, Bool, true, false, Option, some, ◌==◌, if◌then◌else◌}
use zktls_bench.Errors.{ok}
use zktls_bench.IoManager.Ports.{Ports, new_ports, get_unused_port}
use zktls_bench.IoManager.Manager.{
  Slots, IoManager, new_io_manager, stop_listen, reserve_number, place_io, accept, clear_pado_io,
}

-- `taken` says which numbers connecting threads have taken and not yet reserved.
pub record Server (Io : Type 0) : Type 0 where
  pub manager : IoManager Io
  pub ports : Ports
  pub taken : ℕ → Bool

abbrev pub new_server : (Io : Type 0) → Server Io
new_server Io = record { manager = new_io_manager Io; ports = new_ports; taken = λ k. false }

abbrev pub set_taken : (ℕ → Bool) → ℕ → Bool → ℕ → Bool
set_taken f p b k = if k == p then b else f k

-- One locked section of one of the threads, for connections that come in groups of `num`.
pub data Step {Io : Type 0} (num : ℕ) : Server Io → Server Io → Type 0 where
  takes :
      (fuel : ℕ) (s : Server Io) {p : ℕ} {ports' : Ports}
      → get_unused_port fuel s.ports ≡ some (p, ports')
      → Step num s (record s { ports = ports'; taken = set_taken s.taken p true })
  reserves :
      (p timestamp : ℕ) (s : Server Io)
      → s.taken p ≡ true
      → Step num s (record s {
        manager = reserve_number s.manager num p timestamp;
        taken = set_taken s.taken p false;
      })
  places :
      (number has_number : ℕ) (io : Io) (s : Server Io) {m' : IoManager Io}
      → place_io s.manager number has_number io ≡ ok m'
      → Step num s (record s { manager = m' })
  accepts :
      (s : Server Io) {ios : Slots Io} {m' : IoManager Io} {ports' : Ports}
      → accept num s.manager s.ports ≡ some (ios, m', ports')
      → Step num s (record s { manager = m'; ports = ports' })
  clears :
      (force : Bool) (timestamp : ℕ) (s : Server Io)
      → Step num s (record s { manager = clear_pado_io force timestamp s.manager })
  stops : (s : Server Io) → Step num s (record s { manager = stop_listen Io s.manager })

pub data Reach {Io : Type 0} (num : ℕ) : Server Io → Type 0 where
  start : Reach num (new_server Io)
  later : {s t : Server Io} → Reach num s → Step num s t → Reach num t
