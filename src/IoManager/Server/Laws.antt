-- ===== src/IoManager/Server/Laws.antt =====
-- What holds in every state of the server.
use zktls_bench.Prelude.{
  ℕ, ◌<◌, ◌≡◌, sym, ap, subst, ◌∙◌, Bool, true, false, ◌||◌, Bool-cases, Option, none, some, ◌⊎◌,
  inl, inr, [], ◌++◌, replicate, length, arith,
}
use native.Mathlib.Decide.{dec_lt}
use zktls_bench.Errors.{ok, ok-injective}
use zktls_bench.IoManager.Ports.{Ports, in_use, get_unused_port}
use zktls_bench.IoManager.Ports.Laws.{IsPort, IsPorts, new_ports-IsPorts, in_use-free_used_port}
use zktls_bench.IoManager.Server.Numbers.{
  get_unused_port-WasFree, free_used_port-IsPorts, HasWord-of_port,
}
use zktls_bench.IoManager.Manager.{
  Slots, IoManager, find_or, put_entry, is_old, place_io, reserve_number, accept, clear_pado_io,
}
use zktls_bench.IoManager.Manager.Laws.{
  IsOrderly, Accepted, Placed, new_io_manager-IsOrderly, place_io-Placed, place_io_fault,
  reserve_number-IsOrderly, clear_pado_io-IsOrderly, accept-Accepted,
}
use zktls_bench.IoManager.Server.{
  Server, set_taken, Step, takes, reserves, places, accepts, clears, stops, Reach, start, later,
}
use zktls_bench.IoManager.Server.Maps.{
  Sorted, has_key, Sorted-put_entry, Sorted-erase, has_key-put_entry, has_key-erase, find_or-absent,
  Sorted-clear_old, has_key-clear_old, place_io-PlacedAt, accept-AcceptedAt,
}

module _ {Io : Type 0} where
  -- A number has slots, or a thread has taken it and will reserve them.
  abbrev pub is_out : Server Io → ℕ → Bool
  is_out s k = has_key k s.manager.pado_io_map || s.taken k

  pub record IsServed (num : ℕ) (s : Server Io) : Type 0 where
    pub orderly : IsOrderly num s.manager
    pub ports : IsPorts s.ports
    pub sorted : Sorted s.manager.pado_io_map
    pub used : (k : ℕ) → is_out s k ≡ true → IsPort k × (in_use s.ports.port_map k ≡ true)
    pub apart : (k : ℕ) → has_key k s.manager.pado_io_map ≡ true → s.taken k ≡ false

  takes-IsServed :
      {num : ℕ} (fuel : ℕ) (s : Server Io) (p : ℕ) (ports' : Ports)
      → get_unused_port fuel s.ports ≡ some (p, ports')
      → IsServed num s
      → IsServed num (record s { ports = ports'; taken = set_taken s.taken p true })
  takes-IsServed fuel s p ports' e v =
      let g = get_unused_port-WasFree fuel s.ports (p, ports') v.ports e in
      record {
        orderly = v.orderly;
        ports = g.order;
        sorted = v.sorted;
        used = λ k h. ground (arith, v.used k, g.valid, g.now_used k);
        apart = λ k h. ground (arith, v.used k, v.apart k, g.was_free);
      }

  reserves-IsServed :
      {num : ℕ} (p timestamp : ℕ) (s : Server Io)
      → 0 < num
      → s.taken p ≡ true
      → IsServed num s
      → IsServed num (record s {
        manager = reserve_number s.manager num p timestamp;
        taken = set_taken s.taken p false;
      })
  unfolding reserve_number
  reserves-IsServed {num} p timestamp s pos e v =
      let es = s.manager.pado_io_map in
      let new : has_key p es ≡ false = ground (arith, v.apart p) in
      record {
        orderly =
            reserve_number-IsOrderly num s.manager p timestamp pos (find_or-absent [] p es new)
              v.orderly;
        ports = v.ports;
        sorted = Sorted-put_entry p (find_or [] p es ++ replicate num none) es v.sorted;
        used = λ k h. ground (
          arith,
          v.used k,
          v.used p,
          has_key-put_entry k p (find_or [] p es ++ replicate num none) es,
        );
        apart = λ k h.
            ground
              (arith, v.apart k, has_key-put_entry k p (find_or [] p es ++ replicate num none) es);
      }

  placed_slots :
      {num : ℕ} (m : IoManager Io) (number i : ℕ) (io : Io) {m' : IoManager Io}
      → IsOrderly num m
      → place_io m number i io ≡ ok m'
      → IsOrderly num m'
  placed_slots {num} m number i io h e =
      elim (dec_lt i (length (find_or [] number m.pado_io_map))) [
        | yes lt ↦
            let p : Placed (place_io m number i io) num = place_io-Placed num m number i io h lt in
            subst (IsOrderly num) (ok-injective (sym p.placed ∙ e)) p.order
        | no ge ↦ absurd (cc (place_io_fault m number i io (omega arith), e))
      ]

  places-IsServed :
      {num : ℕ} (number i : ℕ) (io : Io) (s : Server Io) {m' : IoManager Io}
      → place_io s.manager number i io ≡ ok m'
      → IsServed num s
      → IsServed num (record s { manager = m' })
  places-IsServed {num} number i io s {m'} e v =
      let es = s.manager.pado_io_map in
      let p = place_io-PlacedAt s.manager number i io e in
      let map' : m'.pado_io_map ≡ put_entry number p.vec es =
        ap (λ (m : IoManager Io). m.pado_io_map) p.left in
      record {
        orderly = placed_slots s.manager number i io v.orderly e;
        ports = v.ports;
        sorted = subst Sorted (sym map') (Sorted-put_entry number p.vec es v.sorted);
        used = λ k h. v.used k (ground (arith, map', p.known, has_key-put_entry k number p.vec es));
        apart =
            λ k h. v.apart k (ground (arith, map', p.known, has_key-put_entry k number p.vec es));
      }

  accepted_slots :
      {num : ℕ} (m : IoManager Io) (ports : Ports) {ios : Slots Io} {m' : IoManager Io}
      {ports' : Ports}
      → IsOrderly num m
      → accept num m ports ≡ some (ios, m', ports')
      → IsOrderly num m'
  accepted_slots {num} m ports {ios} {m'} {ports'} h e = elim (accept-Accepted num m ports h) [
    | inl waits ↦ absurd (cc (waits, e))
    | inr a ↦ subst (IsOrderly num) (same a.m' (sym a.accepted ∙ e)) a.order
  ]
    where
      same :
          (m1 : IoManager Io) {ios1 : Slots Io} {ports1 : Ports}
          → ◌≡◌ {A = Option (Slots Io × IoManager Io × Ports)}
              (some (ios1, m1, ports1))
              (some (ios, m', ports'))
          → m1 ≡ m'
      same m1 q = cc

  accepts-IsServed :
      {num : ℕ} (s : Server Io) {ios : Slots Io} {m' : IoManager Io} {ports' : Ports}
      → accept num s.manager s.ports ≡ some (ios, m', ports')
      → IsServed num s
      → IsServed num (record s { manager = m'; ports = ports' })
  accepts-IsServed {num} s {m' = m'} {ports'} e v =
      let es = s.manager.pado_io_map in
      let a = accept-AcceptedAt num s.manager s.ports e in
      let known = v.used a.number (ground (arith, a.known)) in
      let word = HasWord-of_port s.ports a.number v.ports known.0 in
      record {
        orderly = accepted_slots s.manager s.ports v.orderly e;
        ports = subst IsPorts (sym a.freed) (free_used_port-IsPorts s.ports a.number v.ports);
        sorted = subst Sorted (sym a.same_map) (Sorted-erase a.number es v.sorted);
        used = λ k h.
            subst (λ (p : Ports). IsPort k × (in_use p.port_map k ≡ true)) (sym a.freed)
              (ground (
                arith,
                a.same_map,
                v.used k,
                v.apart a.number a.known,
                has_key-erase k a.number es v.sorted,
                in_use-free_used_port s.ports a.number k word,
              ));
        apart = λ k h. ground (arith, a.same_map, v.apart k, has_key-erase k a.number es v.sorted);
      }

  clears-IsServed :
      {num : ℕ} (force : Bool) (t : ℕ) (s : Server Io)
      → IsServed num s
      → IsServed num (record s { manager = clear_pado_io force t s.manager })
  unfolding clear_pado_io
  clears-IsServed {num} force t s v =
      let m = s.manager in
      elim (Bool-cases (force || is_old t m.previous_check_timestamp)) [
        | inl now ↦ record {
          orderly = clear_pado_io-IsOrderly num force t m v.orderly;
          ports = v.ports;
          sorted = rw now (Sorted-clear_old force t m.created_timestamp_map m.pado_io_map v.sorted);
          used = λ k h. v.used k (
              ground (
                arith,
                has_key-clear_old force t m.created_timestamp_map m.pado_io_map k v.sorted,
              ));
          apart = λ k h. v.apart k (
              ground (
                arith,
                has_key-clear_old force t m.created_timestamp_map m.pado_io_map k v.sorted,
              ));
        }
        | inr later' ↦ record {
          orderly = clear_pado_io-IsOrderly num force t m v.orderly;
          ports = v.ports;
          sorted = rw later' v.sorted;
          used = λ k h. v.used k (ground (arith, h));
          apart = λ k h. v.apart k (ground (arith, h));
        }
      ]

  Step-IsServed :
      {num : ℕ} {s t : Server Io} → 0 < num → Step num s t → IsServed num s → IsServed num t
  Step-IsServed pos (takes fuel s {p} {ports'} e) v = takes-IsServed fuel s p ports' e v
  Step-IsServed pos (reserves p timestamp s e) v = reserves-IsServed p timestamp s pos e v
  Step-IsServed pos (places number i io s e) v = places-IsServed number i io s e v
  Step-IsServed pos (accepts s e) v = accepts-IsServed s e v
  Step-IsServed pos (clears force t s) v = clears-IsServed force t s v
  Step-IsServed pos (stops s) v = record {
    orderly = record { slots = v.orderly.slots };
    ports = v.ports;
    sorted = v.sorted;
    used = v.used;
    apart = v.apart;
  }

  -- For groups of at least one connection. In every state that the connecting threads, the owner
  -- and the listening thread of a server can reach, in any order of their locked sections: the
  -- slots of every number are in order, each number that has slots or that a thread has taken is
  -- from 1 to 1023 and marked as used, and no number that a thread has taken has slots yet.
  pub Reach-IsServed : {num : ℕ} {s : Server Io} → 0 < num → Reach num s → IsServed num s
  Reach-IsServed {num} pos start = record {
    orderly = new_io_manager-IsOrderly num;
    ports = new_ports-IsPorts;
    sorted = tt;
    used = λ k h. cc;
    apart = λ k h. cc;
  }
  Reach-IsServed pos (later r st) = Step-IsServed pos st (Reach-IsServed pos r)

  -- A number given out in such a state, for groups of at least one connection, is
  -- nobody else's: it has no slots, and no thread has taken it.
  pub Reach-fresh :
      {num : ℕ} {s : Server Io} (fuel : ℕ) {p : ℕ} {ports' : Ports}
      → 0 < num
      → Reach num s
      → get_unused_port fuel s.ports ≡ some (p, ports')
      → is_out s p ≡ false
  Reach-fresh {s = s} fuel {p} {ports'} pos r e =
      let v = Reach-IsServed pos r in
      ground
        (arith, v.used p, (get_unused_port-WasFree fuel s.ports (p, ports') v.ports e).was_free)

  -- In such a state, for groups of at least one connection, `accept` waits, or hands out exactly `num`
  -- connections, none a null pointer.
  pub Reach-accept :
      {num : ℕ} {s : Server Io}
      → 0 < num
      → Reach num s
      → (accept num s.manager s.ports ≡ none)
        ⊎ Accepted (accept num s.manager s.ports) num s.manager s.ports
  Reach-accept {num} {s} pos r =
      accept-Accepted num s.manager s.ports (Reach-IsServed pos r).orderly
