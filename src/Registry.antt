-- ===== src/Registry.antt =====
-- network/common/runtime_error.h and runtime_error.cpp: the registry of exception classes, and the
-- message of an exception, which names its class. Texts are lists of bytes.
use zktls_bench.Prelude.{
  ℕ, ◌≡◌, refl, ◌∙◌, ◌≢◌, Bool, true, false, ◌&&◌, Option, none, some, List, [], ◌∷◌, ◌++◌,
  append_assoc, append-nil, ◌==◌, if◌then◌else◌, arith, All,
}

-- `BaseExceptionFactory`, with the code and the name of its class.
pub record ExceptionFactory : Type 0 where
  pub error_code : ℕ
  pub error_type : List ℕ

-- The message of an exception: "[" + GetErrorType() + "]" + e.
unfoldable pub error_msg : List ℕ → List ℕ → List ℕ
error_msg error_type e = (91 ∷ error_type) ++ (93 ∷ e)

-- A walk to the end of the list, and the item behind it.
unfoldable pub push_exception_factory :
    List ExceptionFactory → ExceptionFactory → List ExceptionFactory
push_exception_factory [] item = item ∷ []
push_exception_factory (h ∷ items) item = h ∷ push_exception_factory items item

unfoldable pub same_text : List ℕ → List ℕ → Bool
same_text [] [] = true
same_text (x ∷ xs) (y ∷ ys) = (x == y) && same_text xs ys
same_text xs ys = false

-- The texts before and behind the first ']'.
unfoldable pub split_at_bracket : List ℕ → Option (List ℕ × List ℕ)
split_at_bracket [] = none
split_at_bracket (x ∷ xs) =
    let rest = split_at_bracket xs in
    if x == 93
    then some ([], xs)
    else elim rest [ none ↦ none | some (before, behind) ↦ some (x ∷ before, behind) ]

-- The class and the message of a text that begins with '['. The first byte of an empty text is zero.
unfoldable pub parse_msg : List ℕ → Option (List ℕ × List ℕ)
parse_msg [] = none
parse_msg (x ∷ xs) = if x == 91 then split_at_bracket xs else none

unfoldable pub find_factory : List ExceptionFactory → List ℕ → Option ExceptionFactory
find_factory [] exception_class = none
find_factory (h ∷ items) exception_class =
    if same_text h.error_type exception_class then some h else find_factory items exception_class

unfoldable pub get_exception_factory : List ExceptionFactory → List ℕ → Option ExceptionFactory
get_exception_factory head e = elim (parse_msg e) [
  | none ↦ none
  | some (exception_class, exception_msg) ↦ find_factory head exception_class
]

unfoldable pub get_exception_msg : List ℕ → List ℕ
get_exception_msg e = elim (parse_msg e) [
  | none ↦ []
  | some (exception_class, exception_msg) ↦ exception_msg
]

abbrev pub push_all : List ExceptionFactory → List ExceptionFactory → List ExceptionFactory
push_all head [] = head
push_all head (f ∷ fs) = push_all (push_exception_factory head f) fs

push_lem :
    (head : List ExceptionFactory) (f : ExceptionFactory)
    → push_exception_factory head f ≡ head ++ (f ∷ [])
unfolding push_exception_factory
push_lem [] f = refl
push_lem (h ∷ head) f = rw (push_lem head f)

push_all_lem : (fs head : List ExceptionFactory) → push_all head fs ≡ head ++ fs
push_all_lem [] head = rw (append-nil head) refl
push_all_lem (f ∷ fs) head =
    rw (push_lem head f) (push_all_lem fs (head ++ (f ∷ [])) ∙ append_assoc head (f ∷ []) fs)

same_text_refl : (xs : List ℕ) → same_text xs xs ≡ true
unfolding same_text
same_text_refl [] = refl
same_text_refl (x ∷ xs) = ground (arith, same_text_refl xs)

split_lem :
    (name e : List ℕ)
    → All (λ x. x ≢ 93) name
    → split_at_bracket (name ++ (93 ∷ e)) ≡ some (name, e)
unfolding split_at_bracket
split_lem [] e h = refl
split_lem (x ∷ xs) e h =
    let other : (x == 93) ≡ false = ground (arith, h.0) in rw (other, split_lem xs e h.1) refl

parse_lem :
    (name e : List ℕ) → All (λ x. x ≢ 93) name → parse_msg (error_msg name e) ≡ some (name, e)
unfolding parse_msg error_msg
parse_lem name e h = split_lem name e h

find_registered :
    (before behind : List ExceptionFactory) (f : ExceptionFactory)
    → All (λ (g : ExceptionFactory). same_text g.error_type f.error_type ≡ false) before
    → find_factory (before ++ (f ∷ behind)) f.error_type ≡ some f
unfolding find_factory
find_registered [] behind f h = rw (same_text_refl f.error_type) refl
find_registered (g ∷ before) behind f h = rw (h.0, find_registered before behind f h.1) refl

-- The message of an exception leads back to its class and to the text it was made with: the factory
-- is the one that was registered under the name, if none before it has that name, and the name has
-- no ']'. The text may be any.
pub get_exception_factory-error_msg :
    (before behind : List ExceptionFactory) (f : ExceptionFactory) (e : List ℕ)
    → All (λ (g : ExceptionFactory). same_text g.error_type f.error_type ≡ false) before
    → All (λ x. x ≢ 93) f.error_type
    → (get_exception_factory (push_all [] (before ++ (f ∷ behind))) (error_msg f.error_type e)
        ≡ some f)
      × (get_exception_msg (error_msg f.error_type e) ≡ e)
unfolding get_exception_factory get_exception_msg
get_exception_factory-error_msg before behind f e h k =
    rw
      (
        parse_lem f.error_type e k,
        get_exception_factory,
        get_exception_msg,
        push_all_lem (before ++ (f ∷ behind)) [],
      )
      (find_registered before behind f h, refl)
