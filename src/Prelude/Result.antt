-- ===== src/Prelude/Result.antt =====
-- Python's exceptions as values, and session methods that change tables and may raise.
use Prim.Native.String.{String}

-- The exception classes that the modelled code raises, each with its message or key.
pub data Error : Type 0 where
  value_error : String → Error
  key_error : String → Error
  type_error : String → Error
  overflow_error : Error  -- int too large to convert to float
  fence_error : String → Error  -- MutationIntentFenceError
  conflict_error : String → Error  -- ConsolidationConflictError
  admin_error : String → Error  -- MutationAdminError
  upstream_error : Error  -- Mem0UpstreamError
  protocol_error : Error  -- MemoryUpstreamProtocolError
  cancelled : Error  -- asyncio.CancelledError
  integrity_error : Error  -- sqlalchemy's IntegrityError

pub data Result {ℓ} (A : Type ℓ) : Type ℓ where
  ok : A → Result A
  err : Error → Result A

abbrev pub Action : Type 0 → Type 0 → Type 0
Action S A = S → Result A × S

module _ {S A : Type 0} where
  abbrev pub pure : A → Action S A
  pure a s = (ok a, s)

  abbrev pub raise : Error → Action S A
  raise e s = (err e, s)

  abbrev pub lift : Result A → Action S A
  lift r s = (r, s)

abbrev pub get : {S : Type 0} → Action S S
get s = (ok s, s)

module _ {A B : Type 0} where
  abbrev pub and_then : Result A → (A → Result B) → Result B
  and_then (ok a) f = f a
  and_then (err e) f = err e

module _ {S A B : Type 0} where
  abbrev pub continue : Result A → (A → Action S B) → Action S B
  continue (ok a) f s = f a s
  continue (err e) f s = (err e, s)

  infixl 5 ◌>>=◌ ◌>>◌
  abbrev pub ◌>>=◌ : Action S A → (A → Action S B) → Action S B
  ◌>>=◌ m f s = let (r, s') = m s in continue r f s'

  abbrev pub ◌>>◌ : Action S A → Action S B → Action S B
  m >> n = m >>= λ _. n
