-- ===== src/Errors.antt =====
-- network/common/runtime_error.h: the exceptions that the networking layer throws, and the outcome
-- of code that may throw.
use Prim.Native.String.{String}
use zktls_bench.Prelude.{Option, none, some, ◌≡◌, refl}

-- The exception classes that the modelled code throws, each with its message.
pub data Exception : Type 0 where
  socket_error : String → Exception
  network_error : String → Exception
  primus_server_network_error : String → Exception
  tls_network_error : String → Exception
  invalid_argument_exception : String → Exception
  runtime_error : String → Exception

-- `fault` is undefined behaviour, such as a read behind the end of a block or through a null
-- pointer, or a failed assert; `stuck` is a loop that ran out of fuel.
pub data Outcome {ℓ} (A : Type ℓ) : Type ℓ where
  ok : A → Outcome A
  err : Exception → Outcome A
  fault : Outcome A
  stuck : Outcome A

infixl 5 ◌>>=◌ ◌>>◌
abbrev pub ◌>>=◌ {ℓ κ} : {A : Type ℓ} {B : Type κ} → Outcome A → (A → Outcome B) → Outcome B
ok a >>= f = f a
err e >>= f = err e
fault >>= f = fault
stuck >>= f = stuck

abbrev pub ◌>>◌ {ℓ} : {B : Type ℓ} → Outcome (Unit {0}) → Outcome B → Outcome B
m >> k = m >>= λ _. k

-- The parts of a chain that returned `out`: what the first call gave, and that the rest then returned.
pub ok_of_bind {ℓ κ} :
    {B : Type κ} {A : Type ℓ} {out : B} (first : Outcome A) (rest : A → Outcome B)
    → (first >>= rest) ≡ ok out
    → (given : A) × (first ≡ ok given) × (rest given ≡ ok out)
ok_of_bind stuck rest e = cc
ok_of_bind fault rest e = cc
ok_of_bind (err x) rest e = cc
ok_of_bind (ok given) rest e = (given, refl, e)

pub ok-injective {ℓ} : {A : Type ℓ} {a b : A} → ok a ≡ ok b → a ≡ b
ok-injective h = cc

-- A read that must be there.
abbrev pub or_fault {ℓ} : {A : Type ℓ} → Option A → Outcome A
or_fault none = fault
or_fault (some a) = ok a

pub data ConnectionType : Type 0 where
  invalid client_to_tls_server client_to_pado : ConnectionType

-- The exception that a stream of the given kind reports.
unfoldable pub connection_error : ConnectionType → String → Exception
connection_error client_to_tls_server desc = tls_network_error desc
connection_error client_to_pado desc = primus_server_network_error desc
connection_error invalid desc = runtime_error desc
