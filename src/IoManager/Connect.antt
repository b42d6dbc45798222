-- ===== src/IoManager/Connect.antt =====
-- `connect_pado_io` and `do_connect_pado_io` of network/io_manager.cpp: a thread for each connection.
-- The first asks the server for a number; the others wait until it is known, or one of them has
-- failed, and send it. What the network does is an event.
pub mod Laws
use Prim.Native.Nat.{ℕ}
use native.Mathlib.Decide.{ℕ_discrete}
use mathlib.Core.Logic.{ite}
use zktls_bench.Prelude.{
  ◌+◌, ◌%◌, ◌<◌, ◌≡◌, ◌≢◌, Bool, true, false, ◌&&◌, Option, none, some, List, [], ◌∷◌, ◌++◌, ◌==◌,
  if◌then◌else◌,
}
use zktls_bench.Prelude.Text.{codes}

-- What the threads share: `number`, 0 until it is known, and `connect_errormsg`.
pub record Exchange : Type 0 where
  pub number : ℕ
  pub connect_errormsg : List ℕ

-- Where a thread is: before its flag is sent; at the test of its wait for the number; asleep in
-- this wait; about to send the number; about to receive it. `sent v` has sent the number v, `told`
-- has received one, `gave_up` has seen an error of another thread, and `failed` has thrown.
pub data Connecting : Type 0 where
  starting waiting asleep sending receiving : Connecting
  sent : ℕ → Connecting
  told gave_up failed : Connecting

-- A call of the network returns, delivers a number, or throws.
pub data Event : Type 0 where
  goes_on : Event
  delivers : ℕ → Event
  throws : List ℕ → Event

-- `uint8_t has_number = i`
abbrev pub has_number : ℕ → ℕ
has_number i = i % 256

-- `catchFn`
abbrev pub catch_fn : List ℕ → Exchange → Exchange
catch_fn e x = record x { connect_errormsg = codes "[connect]error exchange number: " ++ e }

abbrev pub is_empty : List ℕ → Bool
is_empty [] = true
is_empty (c ∷ cs) = false

-- The next step of `tryFn` or `catchFn`, with whether it calls notify_all; `none` while the thread is
-- asleep, or where the event does not fit.
unfoldable pub do_connect_pado_io :
    ℕ → Event → Exchange → Connecting → Option (Exchange × Connecting × Bool)
do_connect_pado_io h goes_on x starting = some (x, if h == 0 then receiving else waiting, false)
do_connect_pado_io h goes_on x waiting =
    if is_empty x.connect_errormsg && (x.number == 0)
    then some (x, asleep, false)
    else some (x, if is_empty x.connect_errormsg then sending else gave_up, false)
do_connect_pado_io h goes_on x sending = some (x, sent x.number, false)
do_connect_pado_io h (delivers number) x receiving = some (record x { number = number }, told, true)
do_connect_pado_io h (throws e) x starting = some (catch_fn e x, failed, true)
do_connect_pado_io h (throws e) x sending = some (catch_fn e x, failed, true)
do_connect_pado_io h (throws e) x receiving = some (catch_fn e x, failed, true)
do_connect_pado_io h ev x pc = none

-- The threads of one `connect_pado_io`.
pub record Connections : Type 0 where
  pub exchange : Exchange
  pub threads : ℕ → Connecting

abbrev pub new_connections : Connections
new_connections = record {
  exchange = record { number = 0; connect_errormsg = [] };
  threads = λ i. starting;
}

abbrev pub update : (ℕ → Connecting) → ℕ → Connecting → ℕ → Connecting
update f i c j = ite (ℕ_discrete i j) c (f j)

-- notify_all wakes each thread that is asleep.
abbrev pub wake : Connecting → Connecting
wake asleep = waiting
wake c = c

abbrev pub wake_if : Bool → Connecting → Connecting
wake_if true c = wake c
wake_if false c = c

abbrev pub woken : Bool → (ℕ → Connecting) → ℕ → Connecting
woken notifies f j = wake_if notifies (f j)

-- A step of one of the `num` threads. The server numbers from 1 on.
pub record Step (num : ℕ) (s t : Connections) : Type 0 where
  pub i : ℕ
  pub i-lt : i < num
  pub event : Event
  pub numbered : event ≢ delivers 0
  pub x' : Exchange
  pub pc' : Connecting
  pub notifies : Bool
  pub taken :
      do_connect_pado_io (has_number i) event s.exchange (s.threads i) ≡ some (x', pc', notifies)
  pub left : t ≡ record { exchange = x'; threads = woken notifies (update s.threads i pc') }

pub data Reach (num : ℕ) : Connections → Type 0 where
  start : Reach num new_connections
  later : {s t : Connections} → Reach num s → Step num s t → Reach num t
