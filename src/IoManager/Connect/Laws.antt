-- ===== src/IoManager/Connect/Laws.antt =====
-- The threads agree on one number, and none of them waits for ever.
use zktls_bench.Prelude.{
  ℕ, zero, suc, ◌%◌, ◌<◌, ◌≤◌, ◌≡◌, ◌≢◌, Bool, refl, sym, subst, ap, ◌∙◌, true, false, ◌&&◌, Option,
  none, some, ◌⊎◌, inl, inr, List, [], ◌∷◌, ◌==◌, if◌then◌else◌, arith,
}
use native.Mathlib.Decide.{ℕ_discrete}
use mathlib.Core.Logic.{if_pos, if_neg}
use zktls_bench.IoManager.Connect.{
  Exchange, Connecting, starting, waiting, asleep, wake, wake_if, woken, sending, receiving, sent,
  told, gave_up, failed, Event, goes_on, delivers, throws, has_number, is_empty, do_connect_pado_io,
  Connections, new_connections, update, Step, Reach, start, later,
}

-- What is known of a thread at a place, with the index `i`.
abbrev pub Fits : Exchange → ℕ → Connecting → Type 0
Fits x i starting = Unit {0}
Fits x i waiting = i ≢ 0
Fits x i asleep = (i ≢ 0) × (x.number ≡ 0) × (x.connect_errormsg ≡ [])
Fits x i sending = (i ≢ 0) × (x.number ≢ 0)
Fits x i receiving = i ≡ 0
Fits x i (sent v) = (i ≢ 0) × (v ≢ 0) × (v ≡ x.number)
Fits x i told = (i ≡ 0) × (x.number ≢ 0)
Fits x i gave_up = x.connect_errormsg ≢ []
Fits x i failed = x.connect_errormsg ≢ []

pub record IsSound (num : ℕ) (s : Connections) : Type 0 where
  pub fits : (i : ℕ) → i < num → Fits s.exchange i (s.threads i)
  pub first : s.exchange.number ≢ 0 → s.threads 0 ≡ told

-- One move: the thread fits its new place, and what the others rely on is kept.
record Moved (x x' : Exchange) (i : ℕ) (pc' : Connecting) (notifies : Bool) : Type 0 where
  here : Fits x' i pc'
  number : (x'.number ≡ x.number) ⊎ ((x.number ≡ 0) × (x'.number ≢ 0) × (i ≡ 0) × (pc' ≡ told))
  errors : x.connect_errormsg ≢ [] → x'.connect_errormsg ≢ []
  wakes : (notifies ≡ true) ⊎ (x' ≡ x)

abbrev After : Exchange → ℕ → Option (Exchange × Connecting × Bool) → Type 0
After x i none = Unit {0}
After x i (some (x', pc', notifies)) = Moved x x' i pc' notifies

move :
    (ev : Event) (x : Exchange) (i : ℕ) (pc : Connecting)
    → i < 256
    → ev ≢ delivers 0
    → (i ≡ 0 → pc ≢ told → x.number ≡ 0)
    → Fits x i pc
    → After x i (do_connect_pado_io (has_number i) ev x pc)
unfolding do_connect_pado_io
move goes_on x zero starting small n u f = record {
  here = refl;
  number = inl refl;
  errors = λ h. h;
  wakes = inr refl;
}
move goes_on x (suc i) starting small n u f =
    let other : (suc i % 256 == 0) ≡ false = ground arith in
    rw other (record { here = ground arith; number = inl refl; errors = λ h. h; wakes = inr refl })
move goes_on x i waiting small n u f = waited x.connect_errormsg x.number refl refl
  where
    waited :
        (msg : List ℕ) (number : ℕ)
        → x.connect_errormsg ≡ msg
        → x.number ≡ number
        → After x i (
            if is_empty msg && (number == 0)
            then some (x, asleep, false)
            else some (x, if is_empty msg then sending else gave_up, false))
    waited [] zero e k = record {
      here = (f, k, e);
      number = inl refl;
      errors = λ h. h;
      wakes = inr refl;
    }
    waited [] (suc number) e k =
        let known : (suc number == 0) ≡ false = ground arith in
        rw known (record {
          here = (f, ground arith);
          number = inl refl;
          errors = λ h. h;
          wakes = inr refl;
        })
    waited (c ∷ msg) number e k = record {
      here = ground arith;
      number = inl refl;
      errors = λ h. h;
      wakes = inr refl;
    }
move goes_on x i sending small n u f = record {
  here = (f.0, f.1, refl);
  number = inl refl;
  errors = λ h. h;
  wakes = inr refl;
}
move (delivers v) x i receiving small n u f =
    let some_number : v ≢ 0 = λ e. n (ap delivers e) in
    record {
      here = (f, some_number);
      number = inr (u f (λ e. cc), some_number, f, refl);
      errors = λ h. h;
      wakes = inl refl;
    }
move (throws m) x i starting small n u f = record {
  here = λ e. cc;
  number = inl refl;
  errors = λ h e. cc;
  wakes = inl refl;
}
move (throws m) x i sending small n u f = record {
  here = λ e. cc;
  number = inl refl;
  errors = λ h e. cc;
  wakes = inl refl;
}
move (throws m) x i receiving small n u f = record {
  here = λ e. cc;
  number = inl refl;
  errors = λ h e. cc;
  wakes = inl refl;
}
move goes_on x i asleep small n u f = tt
move goes_on x i receiving small n u f = tt
move goes_on x i (sent v) small n u f = tt
move goes_on x i told small n u f = tt
move goes_on x i gave_up small n u f = tt
move goes_on x i failed small n u f = tt
move (delivers v) x i starting small n u f = tt
move (delivers v) x i waiting small n u f = tt
move (delivers v) x i asleep small n u f = tt
move (delivers v) x i sending small n u f = tt
move (delivers v) x i (sent w) small n u f = tt
move (delivers v) x i told small n u f = tt
move (delivers v) x i gave_up small n u f = tt
move (delivers v) x i failed small n u f = tt
move (throws m) x i waiting small n u f = tt
move (throws m) x i asleep small n u f = tt
move (throws m) x i (sent v) small n u f = tt
move (throws m) x i told small n u f = tt
move (throws m) x i gave_up small n u f = tt
move (throws m) x i failed small n u f = tt

-- Another thread's place stays fit.
Fits-kept :
    {x x' : Exchange} {i : ℕ} {pc' : Connecting} {notifies : Bool} (j : ℕ) (c : Connecting)
    → Moved x x' i pc' notifies
    → i ≢ j
    → Fits x j c
    → Fits x' j (wake c)
Fits-kept j starting m ne f = tt
Fits-kept j waiting m ne f = f
Fits-kept j asleep m ne f = f.0
Fits-kept j sending m ne f = ground (arith, m.number)
Fits-kept j receiving m ne f = f
Fits-kept j (sent v) m ne f = ground (arith, m.number)
Fits-kept j told m ne f = ground (arith, m.number)
Fits-kept j gave_up m ne f = m.errors f
Fits-kept j failed m ne f = m.errors f

new-IsSound : (num : ℕ) → IsSound num new_connections
new-IsSound num = record { fits = λ i h. tt; first = λ h. absurd (h refl) }

told_stays : (h : ℕ) (ev : Event) (x : Exchange) → do_connect_pado_io h ev x told ≡ none
unfolding do_connect_pado_io
told_stays h goes_on x = refl
told_stays h (delivers v) x = refl
told_stays h (throws e) x = refl

Fits-wake : (x : Exchange) (i : ℕ) (c : Connecting) → Fits x i c → Fits x i (wake c)
Fits-wake x i starting f = f
Fits-wake x i waiting f = f
Fits-wake x i asleep f = f.0
Fits-wake x i sending f = f
Fits-wake x i receiving f = f
Fits-wake x i (sent v) f = f
Fits-wake x i told f = f
Fits-wake x i gave_up f = f
Fits-wake x i failed f = f

wake_if-told : (b : Bool) → wake_if b told ≡ told
wake_if-told true = refl
wake_if-told false = refl

module _ {num : ℕ} {s t : Connections} (st : Step num s t) (sound : IsSound num s)
    (few : num ≤ 256) where
  open st use {i, event, x', pc', notifies}

  abbrev pc : Connecting
  pc = s.threads i

  moving : pc ≢ told
  moving e = absurd (cc (told_stays (has_number i) event s.exchange, st.taken, e))

  unset : i ≡ 0 → pc ≢ told → s.exchange.number ≡ 0
  unset first h = elim (ℕ_discrete s.exchange.number 0) [
    | yes e ↦ e
    | no ne ↦ absurd (h (ap s.threads first ∙ sound.first ne))
  ]

  moved : Moved s.exchange x' i pc' notifies
  moved =
      subst (After s.exchange i) st.taken (
        move event s.exchange i pc (omega (arith, st.i-lt)) st.numbered unset
          (sound.fits i st.i-lt))

  -- What a thread is woken to fits, and where none is woken nothing has changed.
  Fits-other :
      (j : ℕ) (b : Bool)
      → i ≢ j
      → (b ≡ true) ⊎ (x' ≡ s.exchange)
      → Fits s.exchange j (s.threads j)
      → Fits x' j (wake_if b (s.threads j))
  Fits-other j true ne w f = Fits-kept j (s.threads j) moved ne f
  Fits-other j false ne (inl e) f = absurd (cc e)
  Fits-other j false ne (inr e) f = subst (λ x. Fits x j (s.threads j)) (sym e) f

  Fits-own : (j : ℕ) (b : Bool) → Fits x' j pc' → Fits x' j (wake_if b pc')
  Fits-own j false f = f
  Fits-own j true f = Fits-wake x' j pc' f

  Fits-after : (j : ℕ) → j < num → Fits x' j (woken notifies (update s.threads i pc') j)
  Fits-after j lt = elim (ℕ_discrete i j) [
    | yes e ↦ rw (if_pos _ e) (Fits-own j notifies (subst (λ k. Fits x' k pc') e moved.here))
    | no ne ↦ rw (if_neg _ ne) (Fits-other j notifies ne moved.wakes (sound.fits j lt))
  ]

  placed : x'.number ≢ 0 → update s.threads i pc' 0 ≡ told
  placed h = elim (ℕ_discrete i 0) [
    | yes e ↦ rw (if_pos _ e) (elim moved.number [
      | inl same ↦ absurd (moving (ap s.threads e ∙ sound.first (λ z. h (same ∙ z))))
      | inr given ↦ given.3
    ])
    | no ne ↦ rw (if_neg _ ne) (elim moved.number [
      | inl same ↦ sound.first (λ z. h (same ∙ z))
      | inr given ↦ absurd (ne given.2)
    ])
  ]

  first_after : x'.number ≢ 0 → woken notifies (update s.threads i pc') 0 ≡ told
  first_after h = ap (wake_if notifies) (placed h) ∙ wake_if-told notifies

  Step-IsSound : IsSound num t
  Step-IsSound =
      subst (IsSound num) (sym st.left) (record { fits = Fits-after; first = first_after })

-- In every reachable state each thread fits its place.
Reach-IsSound : {num : ℕ} {s : Connections} → num ≤ 256 → Reach num s → IsSound num s
Reach-IsSound {num} few start = new-IsSound num
Reach-IsSound few (later r st) = Step-IsSound st (Reach-IsSound few r) few

-- For at most 256 connections, and a server that numbers from 1 on, in every reachable state: each
-- thread that has sent a number has sent the one that the first thread received, which is not 0.
pub sent_number :
    {num : ℕ} {s : Connections} (i : ℕ) (v : ℕ)
    → num ≤ 256
    → Reach num s
    → i < num
    → s.threads i ≡ sent v
    → (i ≢ 0) × (v ≢ 0) × (v ≡ s.exchange.number) × (s.threads 0 ≡ told)
sent_number {s = s} i v few r lt at =
    let sound = Reach-IsSound few r in
    let f : Fits s.exchange i (sent v) = subst (Fits s.exchange i) at (sound.fits i lt) in
    (f.0, f.1, f.2, sound.first (λ z. f.1 (f.2 ∙ z)))

-- How a thread leaves its wait.
abbrev pub way_on : List ℕ → Connecting
way_on [] = sending
way_on (c ∷ msg) = gave_up

goes :
    (h : ℕ) (x : Exchange)
    → (x.number ≢ 0) ⊎ (x.connect_errormsg ≢ [])
    → do_connect_pado_io h goes_on x waiting ≡ some (x, way_on x.connect_errormsg, false)
unfolding do_connect_pado_io
goes h x p = go x.connect_errormsg x.number p
  where
    go :
        (msg : List ℕ) (number : ℕ)
        → (number ≢ 0) ⊎ (msg ≢ [])
        → if◌then◌else◌ {A = Option (Exchange × Connecting × Bool)}
            (is_empty msg && (number == 0))
            (some (x, asleep, false))
            (some (x, if is_empty msg then sending else gave_up, false))
          ≡ some (x, way_on msg, false)
    go [] zero (inl p) = absurd (p refl)
    go [] zero (inr p) = absurd (p refl)
    go [] (suc number) p = let known : (suc number == 0) ≡ false = ground arith in rw known refl
    go (c ∷ msg) number p = refl

known :
    {num : ℕ} {s : Connections} (j : ℕ)
    → IsSound num s
    → j < num
    → (s.threads j ≡ told) ⊎ (s.threads j ≡ failed)
    → (s.exchange.number ≢ 0) ⊎ (s.exchange.connect_errormsg ≢ [])
known {s = s} j sound lt (inl e) = inl (subst (Fits s.exchange j) e (sound.fits j lt)).1
known {s = s} j sound lt (inr e) = inr (subst (Fits s.exchange j) e (sound.fits j lt))

-- With at most 256 connections and a server that numbers from 1 on, no thread waits for ever: once the
-- first thread has received its number, or any thread has failed, no thread is asleep any more, and
-- each one in its wait leaves it with its next step, to send the number or, if there was an error, to
-- end.
pub waiting_ends :
    {num : ℕ} {s : Connections} (i j : ℕ)
    → num ≤ 256
    → Reach num s
    → i < num
    → j < num
    → (s.threads i ≡ waiting) ⊎ (s.threads i ≡ asleep)
    → (s.threads j ≡ told) ⊎ (s.threads j ≡ failed)
    → do_connect_pado_io (has_number i) goes_on s.exchange (s.threads i)
      ≡ some (s.exchange, way_on s.exchange.connect_errormsg, false)
waiting_ends {s = s} i j few r lt lt' (inl at) e =
    rw at (goes (has_number i) s.exchange (known j (Reach-IsSound few r) lt' e))
waiting_ends {s = s} i j few r lt lt' (inr at) e =
    let sound = Reach-IsSound few r in
    let f : Fits s.exchange i asleep = subst (Fits s.exchange i) at (sound.fits i lt) in
    absurd (elim (known j sound lt' e) [ inl ne ↦ ne f.1 | inr ne ↦ ne f.2 ])

-- The places where a thread has ended.
abbrev pub Ended : Connecting → Type 0
Ended (sent v) = Unit
Ended told = Unit
Ended gave_up = Unit
Ended failed = Unit
Ended c = ⊥

-- With at most 256 connections and a server that numbers from 1 on: when all threads have been
-- joined and no error was left, the first connection has received a number and each other one has
-- sent just this number.
pub joined_number :
    {num : ℕ} {s : Connections} (i : ℕ)
    → num ≤ 256
    → Reach num s
    → ((j : ℕ) → j < num → Ended (s.threads j))
    → s.exchange.connect_errormsg ≡ []
    → i < num
    → (s.exchange.number ≢ 0) × (s.threads i ≡ (if i == 0 then told else sent s.exchange.number))
joined_number {num} {s} i few r ended clean lt =
    let sound = Reach-IsSound few r in
    (
      at_first (s.threads 0) (ended 0 (omega arith)) (sound.fits 0 (omega arith)),
      at_other i (s.threads i) (ended i lt) (sound.fits i lt),
    )
  where
    at_first : (c : Connecting) → Ended c → Fits s.exchange 0 c → s.exchange.number ≢ 0
    at_first starting e f = absurd e
    at_first waiting e f = absurd e
    at_first asleep e f = absurd e
    at_first sending e f = absurd e
    at_first receiving e f = absurd e
    at_first (sent v) e f = absurd (f.0 refl)
    at_first told e f = f.1
    at_first gave_up e f = absurd (f clean)
    at_first failed e f = absurd (f clean)

    at_other :
        (k : ℕ) (c : Connecting)
        → Ended c
        → Fits s.exchange k c
        → c ≡ (if k == 0 then told else sent s.exchange.number)
    at_other k starting e f = absurd e
    at_other k waiting e f = absurd e
    at_other k asleep e f = absurd e
    at_other k sending e f = absurd e
    at_other k receiving e f = absurd e
    at_other k (sent v) e f = let ne : (k == 0) ≡ false = ground (arith, f.0) in rw ne (ap sent f.2)
    at_other k told e f = let z : (k == 0) ≡ true = ground (arith, f.0) in rw z refl
    at_other k gave_up e f = absurd (f clean)
    at_other k failed e f = absurd (f clean)
