-- ===== src/IoManager/Exceptions.antt =====
-- `check_exception_frequency` of network/io_manager.cpp. Times are 32-bit numbers.
use zktls_bench.Prelude.{
  ℕ, ◌+◌, ◌-◌, ◌%◌, ◌^◌, ◌<◌, ◌≤◌, ◌≡◌, refl, Bool, true, false, ◌&&◌, List, [], ◌∷◌, ◌++◌, ltb,
  leb, ◌==◌, if◌then◌else◌, length, drop, get_or, arith, ap, ◌∙◌, length-append, length-drop,
}

-- Whether there were too many exceptions, and the times that are kept.
unfoldable pub check_exception_frequency : List ℕ → ℕ → Bool × List ℕ
check_exception_frequency timestamps now =
    let times = timestamps ++ (now ∷ []) in
    let size = length times in
    if leb 1000 size
    then if ltb ((get_or times (size - 1000) 0 + 2 ^ 32 - now) % 2 ^ 32) 60
      then (true, times)
      else if leb 2000 size
      then (false, drop 1000 times)
      else (false, times)
    else (false, times)

-- The time of the exception that is the thousandth from the end, this one counted.
abbrev pub thousandth : List ℕ → ℕ → ℕ
thousandth timestamps now =
    get_or (timestamps ++ (now ∷ [])) (length (timestamps ++ (now ∷ [])) - 1000) 0

difference :
    (old now : ℕ)
    → old ≤ now
    → now + 60 ≤ 2 ^ 32
    → ltb ((old + 2 ^ 32 - now) % 2 ^ 32) 60 ≡ (old == now)
difference old now h k = ground arith

-- The branches of the check.
abbrev branches : Bool → Bool → Bool → List ℕ → List ℕ → Bool × List ℕ
branches a b c x y =
    if a then if b then (true, x) else if c then (false, y) else (false, x) else (false, x)

raised : (a b c : Bool) (x y : List ℕ) → (branches a b c x y).0 ≡ (a && b)
raised false b c x y = refl
raised true false false x y = refl
raised true false true x y = refl
raised true true c x y = refl

kept :
    (a b c : Bool) (x y : List ℕ)
    → (a ≡ false → length x < 2000)
    → (c ≡ false → length x < 2000)
    → length y < 2000
    → (branches a b c x y).0 ≡ false
    → length (branches a b c x y).1 < 2000
kept false b c x y h k l e = h refl
kept true true c x y h k l e = absurd (ground (arith, e))
kept true false true x y h k l e = l
kept true false false x y h k l e = k refl

-- With a clock that does not run back and does not near its wrap, the alarm is raised exactly if the
-- last thousand exceptions all came in the current second: a time of up to 59 seconds ago does not
-- count, because the difference is taken the wrong way round.
pub check_exception_frequency_lem :
    (timestamps : List ℕ) (now : ℕ)
    → now + 60 ≤ 2 ^ 32
    → thousandth timestamps now ≤ now
    → (check_exception_frequency timestamps now).0
      ≡ (leb 1000 (length timestamps + 1) && (thousandth timestamps now == now))
unfolding check_exception_frequency
check_exception_frequency_lem timestamps now h k =
    let size : length (timestamps ++ (now ∷ [])) ≡ length timestamps + 1 =
      length-append timestamps (now ∷ []) in
    rw (difference (thousandth timestamps now) now k h) (
      raised (leb 1000 (length (timestamps ++ (now ∷ [])))) (thousandth timestamps now == now)
        (leb 2000 (length (timestamps ++ (now ∷ [])))) (timestamps ++ (now ∷ []))
        (drop 1000 (timestamps ++ (now ∷ [])))
      ∙ ap (λ n. leb 1000 n && (thousandth timestamps now == now)) size)

-- The times kept stay below two thousand: the list is cut before it gets there, unless the alarm is
-- raised.
pub length-check_exception_frequency :
    (timestamps : List ℕ) (now : ℕ)
    → length timestamps < 2000
    → (check_exception_frequency timestamps now).0 ≡ false
    → length (check_exception_frequency timestamps now).1 < 2000
unfolding check_exception_frequency
length-check_exception_frequency timestamps now h e =
    let times : List ℕ = timestamps ++ (now ∷ []) in
    let size : length times ≡ length timestamps + 1 = length-append timestamps (now ∷ []) in
    kept (leb 1000 (length times)) (ltb ((thousandth timestamps now + 2 ^ 32 - now) % 2 ^ 32) 60)
      (leb 2000 (length times)) times (drop 1000 times) (few (length times)) (below (length times))
      (omega (arith, length-drop 1000 times)) e
  where
    few : (n : ℕ) → leb 1000 n ≡ false → n < 2000
    few n h = ground arith

    below : (n : ℕ) → leb 2000 n ≡ false → n < 2000
    below n h = ground arith
