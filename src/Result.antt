-- ===== src/Result.antt =====
-- packages/sdk/src/types/errors.ts: error codes and results, and the control flow of the async
-- functions of the SDK. The messages of failures are for people and are left out.
pub mod Rules
use openrep.Prelude.{Bool, true, false, Option, none, some, if◌then◌else◌}

-- The codes that the modelled functions produce.
pub data ErrorCode : Type 0 where
  agent_not_found invalid_signature duplicate_name duplicate_public_key : ErrorCode
  duplicate_source_name duplicate_idempotency_key key_mismatch invalid_source : ErrorCode
  input_too_large unknown_source malformed_external_attestation : ErrorCode
  external_attestation_invalid session_expired rate_limited invalid_input : ErrorCode
  name_generation_exhausted storage_write_failed chat_session_not_found : ErrorCode
  key_generation_failed unauthorized_revocation stale_revocation_request : ErrorCode
  unauthorized_rotation stale_rotation_request agent_revoked owner_key_missing : ErrorCode
  turn_limit_exceeded run_timed_out unregistered_tool tool_argument_invalid : ErrorCode
  provider_api_failure score_computation_limit_exceeded duplicate_email : ErrorCode
  duplicate_account user_not_found : ErrorCode

-- What a `catch` clause receives: an error whose `code` property is one of the codes, or any
-- other value.
pub data Fault : Type 0 where
  coded : ErrorCode → Fault
  uncoded : Fault

-- A promise settles: it returns, or it rejects.
pub data Settled {ℓ} (A : Type ℓ) : Type ℓ where
  returned : A → Settled A
  rejected : Fault → Settled A

-- A call of the storage adapter: the storage goes through it as a state.
abbrev pub Call : Type 0 → Type 0 → Type 0
Call S A = S → Settled A × S

-- How a function of the SDK ends: `ok(v)`, `failure(code)`, or a rejection that nothing caught.
pub data Outcome {ℓ} (A : Type ℓ) : Type ℓ where
  ok : A → Outcome A
  failure : ErrorCode → Outcome A
  threw : Fault → Outcome A

abbrev pub Flow : Type 0 → Type 0 → Type 0
Flow S A = S → Outcome A × S

module _ {S A B : Type 0} where
  abbrev pub continue : Outcome A → (A → Flow S B) → Flow S B
  continue (ok a) f s = f a s
  continue (failure c) f s = (failure c, s)
  continue (threw e) f s = (threw e, s)

  infixl 10 ◌>>=◌ ◌>>◌
  -- An early `return failure(…)` skips the rest.
  unfoldable pub ◌>>=◌ : Flow S A → (A → Flow S B) → Flow S B
  ◌>>=◌ m f s = continue (m s).0 f (m s).1

  abbrev pub ◌>>◌ : Flow S A → Flow S B → Flow S B
  m >> n = m >>= λ _. n

-- `await storage.f(…)` with no `try` around it
abbrev pub settle {ℓ} : {A : Type ℓ} → Settled A → Outcome A
settle (returned a) = ok a
settle (rejected e) = threw e

module _ {S A : Type 0} where
  unfoldable pub pure : A → Flow S A
  pure a s = (ok a, s)

  -- `return failure(code, …)`
  unfoldable pub fail : ErrorCode → Flow S A
  fail c s = (failure c, s)

  unfoldable pub await : Call S A → Flow S A
  await call s = (settle (call s).0, (call s).1)

  abbrev pub handled : Settled A → (Fault → Flow S A) → Flow S A
  handled (returned a) h s = (ok a, s)
  handled (rejected e) h s = h e s

  -- `try { return await storage.f(…) } catch (err) { … }`
  unfoldable pub attempt : Call S A → (Fault → Flow S A) → Flow S A
  attempt call h s = handled (call s).0 h (call s).1

module _ {S A B : Type 0} where
  abbrev pub branch : Settled A → (A → Flow S B) → (Fault → Flow S B) → Flow S B
  branch (returned a) f h s = f a s
  branch (rejected e) f h s = h e s

  -- `try { a = await storage.f(…) } catch (err) { return … } …`
  unfoldable pub try_call : Call S A → (A → Flow S B) → (Fault → Flow S B) → Flow S B
  try_call call f h s = branch (call s).0 f h (call s).1

module _ {S : Type 0} where
  -- `if (!test) return failure(code, …)`
  unfoldable pub require : Bool → ErrorCode → Flow S (Unit {0})
  require true c s = (ok tt, s)
  require false c s = (failure c, s)

module _ {S A : Type 0} where
  -- `if (x === null) return failure(code, …)`
  unfoldable pub require_some : Option A → ErrorCode → Flow S A
  require_some none c s = (failure c, s)
  require_some (some a) c s = (ok a, s)

  -- `await` of a call that is not the store's, with no `try` around it; `none` is a rejection.
  unfoldable pub unguarded : Option A → Flow S A
  unguarded none s = (threw uncoded, s)
  unguarded (some a) s = (ok a, s)
