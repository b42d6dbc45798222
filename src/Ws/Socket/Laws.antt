-- ===== src/Ws/Socket/Laws.antt =====
-- What `SocketStream::RecvEx` reads: the bytes of the connection in order, however the kernel cuts
-- them up, as many as were asked for unless the connection ends first.
use zktls_bench.Prelude.{
  ℕ, zero, suc, ◌+◌, ◌-◌, ◌<◌, ◌≤◌, ◌≡◌, refl, ap, ap₂, sym, ◌∙◌, Bool, true, false, List, [], ◌∷◌,
  ◌++◌, append_assoc, append-nil, ltb, ◌==◌, length, take, drop, min, arith, All, overlay,
  length-overlay, length-append, length-take, length-drop, length-replicate, take_append_le,
  take_append_ge, drop_append_le, drop_append_ge, drop-drop, take_append, take_all, overlay_lem,
  take-append-drop, take-take_le, drop-take,
}
use native.Mathlib.Decide.{dec_lt}
use zktls_bench.Ws.Socket.{
  RecvEvent, delivered, interrupted, failed, SocketBuffer, Socket, available, move_offset, refill,
  recv, from_buffer, recv_ex, new_socket,
}

-- The bytes that the events deliver before the first that ends a read.
abbrev pub stream_bytes : Bool → List RecvEvent → List ℕ
stream_bytes again [] = []
stream_bytes again (delivered [] ∷ events) = []
stream_bytes again (delivered (b ∷ bytes) ∷ events) = (b ∷ bytes) ++ stream_bytes again events
stream_bytes true (interrupted ∷ events) = stream_bytes true events
stream_bytes false (interrupted ∷ events) = []
stream_bytes again (failed ∷ events) = []

-- ::recv delivers at most the 1 MiB that it is asked for.
abbrev pub Fits : RecvEvent → Type 0
Fits (delivered bytes) = length bytes ≤ 1048576
Fits interrupted = Unit {0}
Fits failed = Unit {0}

-- What `Recv` takes off the events.
record Event (again : Bool) (events : List RecvEvent) : Type 0 where
  none_left : length (recv again events).0 ≡ 0 → stream_bytes again events ≡ []
  some_left :
      0 < length (recv again events).0
      → stream_bytes again events
        ≡ (recv again events).0 ++ stream_bytes again (recv again events).1
  shorter : 0 < length (recv again events).0 → length (recv again events).1 < length events
  bounded : length (recv again events).0 ≤ 1048576
  fits : All Fits (recv again events).1

recv-Event : (again : Bool) (events : List RecvEvent) → All Fits events → Event again events
unfolding recv
recv-Event again [] h = record {
  none_left = λ e. refl;
  some_left = λ p. absurd (omega arith);
  shorter = λ p. absurd (omega arith);
  bounded = omega arith;
  fits = tt;
}
recv-Event again (delivered [] ∷ events) h = record {
  none_left = λ e. refl;
  some_left = λ p. absurd (omega arith);
  shorter = λ p. absurd (omega arith);
  bounded = omega arith;
  fits = h.1;
}
recv-Event again (delivered (b ∷ bytes) ∷ events) h = record {
  none_left = λ e. absurd (omega arith);
  some_left = λ p. refl;
  shorter = λ p. omega arith;
  bounded = h.0;
  fits = h.1;
}
recv-Event true (interrupted ∷ events) h =
    let r : Event true events = recv-Event true events h.1 in
    record {
      none_left = r.none_left;
      some_left = r.some_left;
      shorter = λ p. omega (arith, r.shorter p);
      bounded = r.bounded;
      fits = r.fits;
    }
recv-Event false (interrupted ∷ events) h = record {
  none_left = λ e. refl;
  some_left = λ p. absurd (omega arith);
  shorter = λ p. absurd (omega arith);
  bounded = omega arith;
  fits = h.1;
}
recv-Event again (failed ∷ events) h = record {
  none_left = λ e. refl;
  some_left = λ p. absurd (omega arith);
  shorter = λ p. absurd (omega arith);
  bounded = omega arith;
  fits = h.1;
}

-- The buffer has its size and its place within it, and no event delivers more than it takes.
pub record IsReady (s : Socket) : Type 0 where
  pub buffer : length s.socket_buffer.buf ≡ 1048576
  pub place : s.socket_buffer.offset ≤ s.socket_buffer.size
  pub room : s.socket_buffer.size ≤ 1048576
  pub fits : All Fits s.events

pub new_socket-IsReady : (events : List RecvEvent) → All Fits events → IsReady (new_socket events)
new_socket-IsReady events h = record {
  buffer = length-replicate {A = ℕ} 1048576 0;
  place = omega arith;
  room = omega arith;
  fits = h;
}

abbrev pub held : SocketBuffer → List ℕ
held b = take (available b) (drop b.offset b.buf)

-- The bytes that the socket has got or will get before a read ends early.
abbrev pub pending : Socket → List ℕ
pending s = held s.socket_buffer ++ stream_bytes s.recv_again s.events

length-held : (s : Socket) → IsReady s → length (held s.socket_buffer) ≡ available s.socket_buffer
length-held s r = omega (
  arith,
  length-take (available s.socket_buffer) (drop s.socket_buffer.offset s.socket_buffer.buf),
  length-drop s.socket_buffer.offset s.socket_buffer.buf,
  r.buffer,
  r.place,
  r.room,
)

held-refill :
    (b : SocketBuffer) (bytes : List ℕ)
    → length bytes ≤ length b.buf
    → held (refill b bytes) ≡ bytes
held-refill b bytes h =
    let front : List ℕ = take (length bytes) b.buf in
    let back : List ℕ = drop (length bytes) b.buf in
    let whole : length bytes - 0 ≡ length bytes = omega arith in
    ap (λ k. take k (overlay bytes b.buf)) whole
    ∙ ap (λ l. take (length bytes) (overlay bytes l)) (sym (take-append-drop (length bytes) b.buf))
    ∙ ap (take (length bytes))
        (overlay_lem bytes front back (omega (arith, length-take (length bytes) b.buf)))
    ∙ take_append (length bytes) bytes back refl

-- What a read gives: the first bytes that are pending, behind those it had.
pub record Read (result : List ℕ × Socket) (s : Socket) (got : List ℕ) (m : ℕ) : Type 0 where
  pub bytes : result.0 ≡ got ++ take m (pending s)
  pub rest : m ≤ length (pending s) → pending result.1 ≡ drop m (pending s)
  pub ready : IsReady result.1

module _ (fuel nbytes : ℕ) (s : Socket) (got : List ℕ) (r : IsReady s) (m : ℕ)
    (e : nbytes ≡ length got + m) where
  abbrev b : SocketBuffer
  b = s.socket_buffer

  left : nbytes - length got ≡ m
  left = omega arith

  taken_len : length (from_buffer b m) ≡ min (available b) m
  taken_len = omega (
    arith,
    length-take (min (available b) m) (drop b.offset b.buf),
    length-drop b.offset b.buf,
    r.buffer,
    r.place,
    r.room,
  )

  enough_held : m ≤ available b → Read (recv_ex (suc fuel) s nbytes got) s got m
  unfolding recv_ex
  enough_held h =
      let all : min (available b) m ≡ m = omega arith in
      let full : length (held b) ≡ available b = length-held s r in
      let bytes_eq : take m (drop b.offset b.buf) ≡ take m (pending s) = sym (
        take_append_le m (held b) _ (omega arith)
        ∙ take-take_le m (available b) (drop b.offset b.buf) h) in
      let rest_eq : take (b.size - (b.offset + m)) (drop (b.offset + m) b.buf)
            ++ stream_bytes s.recv_again s.events
          ≡ drop m (pending s) =
        let size_eq : b.size - (b.offset + m) ≡ b.size - b.offset - m = omega arith in
        sym (
          drop_append_le m (held b) _ (omega arith)
          ∙ ap (λ l. l ++ stream_bytes s.recv_again s.events)
              (drop-take m (available b) (drop b.offset b.buf)
                ∙ ap₂ take (sym size_eq) (drop-drop m b.offset b.buf))) in
      let done : ltb (length (got ++ take m (drop b.offset b.buf))) nbytes ≡ false =
        let len : length (got ++ take m (drop b.offset b.buf)) ≡ nbytes = omega (
          arith,
          length-append got (take m (drop b.offset b.buf)),
          taken_len,
          ap (λ k. length (take k (drop b.offset b.buf))) all,
        ) in
        ground arith in
      rw (left, all, done)
        (record {
          bytes = ap (◌++◌ got) bytes_eq;
          rest = λ k. rest_eq;
          ready = record {
            buffer = r.buffer;
            place = omega (arith, r.place);
            room = r.room;
            fits = r.fits;
          };
        })

  -- The buffer is used up, and the next event is taken.
  abbrev next : Socket
  next = record s {
    socket_buffer = refill (move_offset b (available b)) (recv s.recv_again s.events).0;
    events = (recv s.recv_again s.events).1;
  }

  event : Event s.recv_again s.events
  event = recv-Event s.recv_again s.events r.fits

  next-IsReady : IsReady next
  next-IsReady = record {
    buffer = length-overlay (recv s.recv_again s.events).0 b.buf ∙ r.buffer;
    place = omega arith;
    room = event.bounded;
    fits = event.fits;
  }

  next_bytes :
      0 < length (recv s.recv_again s.events).0 → pending next ≡ stream_bytes s.recv_again s.events
  next_bytes p =
      ap (λ l. l ++ stream_bytes s.recv_again (recv s.recv_again s.events).1)
        (held-refill (move_offset b (available b)) (recv s.recv_again s.events).0
          (omega (arith, event.bounded, r.buffer)))
      ∙ sym (event.some_left p)

  module _ (more : available b < m) where
    all : min (available b) m ≡ available b
    all = omega arith

    not_done : ltb (length (got ++ held b)) nbytes ≡ true
    not_done =
        let len : length (got ++ held b) < nbytes =
          omega (arith, length-append got (held b), length-held s r) in
        ground arith

    ended :
        length (recv s.recv_again s.events).0 ≡ 0 → Read (recv_ex (suc fuel) s nbytes got) s got m
    unfolding recv_ex
    ended z =
        let nothing : stream_bytes s.recv_again s.events ≡ [] = event.none_left z in
        let only_held : pending s ≡ held b = ap (◌++◌ (held b)) nothing ∙ append-nil (held b) in
        let zero_bytes : (length (recv s.recv_again s.events).0 == 0) ≡ true = ground arith in
        rw (left, all, not_done, zero_bytes)
          (record {
            bytes = ap (◌++◌ got) (
                sym (ap (take m) only_held ∙ take_all m (held b) (omega (arith, length-held s r))));
            rest = λ k. absurd (omega (arith, length-held s r, ap length only_held));
            ready = record {
              buffer = r.buffer;
              place = omega (arith, r.place);
              room = r.room;
              fits = event.fits;
            };
          })

    went_on :
        0 < length (recv s.recv_again s.events).0
        → Read (recv_ex fuel next nbytes (got ++ held b)) next (got ++ held b) (m - available b)
        → Read (recv_ex (suc fuel) s nbytes got) s got m
    unfolding recv_ex
    went_on p later =
        let some_bytes : (length (recv s.recv_again s.events).0 == 0) ≡ false = ground arith in
        let len : length (held b) ≡ available b = length-held s r in
        let tail : List ℕ = stream_bytes s.recv_again s.events in
        rw (left, all, not_done, some_bytes)
          (record {
            bytes =
                later.bytes
                ∙ append_assoc got (held b) (take (m - available b) (pending next))
                ∙ ap (◌++◌ got) (
                    ap (λ l. held b ++ take (m - available b) l) (next_bytes p)
                    ∙ ap (λ k. held b ++ take (m - k) tail) (sym len)
                    ∙ sym (take_append_ge m (held b) tail (omega arith)));
            rest = λ k.
                later.rest (omega (arith, ap length (next_bytes p), length-append (held b) tail))
                ∙ ap (drop (m - available b)) (next_bytes p)
                ∙ ap (λ k. drop (m - k) tail) (sym len)
                ∙ sym (drop_append_ge m (held b) tail (omega arith));
            ready = later.ready;
          })

-- `RecvEx` with more fuel than events: it reads the next bytes of the connection in order, as many
-- as were asked for, or all that come before the end or an error. When all were there the rest stays
-- pending, and the buffer is always left in order.
pub recv_ex-Read :
    (fuel nbytes : ℕ) (s : Socket) (got : List ℕ) (m : ℕ)
    → IsReady s
    → length s.events < fuel
    → nbytes ≡ length got + m
    → Read (recv_ex fuel s nbytes got) s got m
recv_ex-Read zero nbytes s got m r f e = absurd (omega arith)
recv_ex-Read (suc fuel) nbytes s got m r f e = elim (dec_lt (available s.socket_buffer) m) [
  | no le ↦ enough_held fuel nbytes s got r m e (omega arith)
  | yes more ↦ elim (dec_lt 0 (length (recv s.recv_again s.events).0)) [
    | no z ↦ ended fuel nbytes s got r m e more (omega arith)
    | yes p ↦
        let n : Socket = next fuel nbytes s got r m e in
        went_on fuel nbytes s got r m e more p (
          recv_ex-Read fuel nbytes n (got ++ held s.socket_buffer) (m - available s.socket_buffer)
            (next-IsReady fuel nbytes s got r m e)
            (omega (arith, (recv-Event s.recv_again s.events r.fits).shorter p))
            (omega (arith, length-append got (held s.socket_buffer), length-held s r)))
  ]
]
