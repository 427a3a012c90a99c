-- ===== src/Result/Rules.antt =====
-- One rule for each step of an async function: to show `P` of how `step >>= k` ends, show it of
-- each way in which the step can end.
use openrep.Prelude.{if◌then◌else◌, Bool, true, false, Option, none, some, ◌≡◌, refl}
use openrep.Result.{
  uncoded, unguarded, branch, try_call, ErrorCode, Fault, Settled, returned, rejected, Call,
  Outcome, ok, failure, threw, Flow, ◌>>=◌, ◌>>◌, continue, handled, settle, pure, fail, await,
  attempt, require, require_some,
}

module _ {S B : Type 0} (P : Outcome B × S → Type 0) where
  pub pure_rule : (b : B) (s : S) → P (ok b, s) → P (pure b s)
  unfolding pure
  pure_rule b s h = h

  pub fail_rule : (c : ErrorCode) (s : S) → P (failure c, s) → P (fail c s)
  unfolding fail
  fail_rule c s h = h

  pub require_rule :
      (b : Bool) (c : ErrorCode) (k : Flow S B) (s : S)
      → (b ≡ true → P (k s))
      → (b ≡ false → P (failure c, s))
      → P ((require b c >> k) s)
  unfolding ◌>>=◌ require
  require_rule true c k s h h' = h refl
  require_rule false c k s h h' = h' refl

  pub if_rule :
      (b : Bool) (m n : Flow S B) (s : S)
      → (b ≡ true → P (m s))
      → (b ≡ false → P (n s))
      → P ((if b then m else n) s)
  if_rule true m n s h h' = h refl
  if_rule false m n s h h' = h' refl

  pub attempt_last_rule :
      (call : Call S B) (handler : Fault → Flow S B) (s : S)
      → ((a : B) → (call s).0 ≡ returned a → P (ok a, (call s).1))
      → ((e : Fault) → (call s).0 ≡ rejected e → P (handler e (call s).1))
      → P (attempt call handler s)
  unfolding attempt
  attempt_last_rule call handler s h h' = go (call s).0 (call s).1 h h'
    where
      go :
          (r : Settled B) (t : S)
          → ((a : B) → r ≡ returned a → P (ok a, t))
          → ((e : Fault) → r ≡ rejected e → P (handler e t))
          → P (handled r handler t)
      go (returned a) t h h' = h a refl
      go (rejected e) t h h' = h' e refl

module _ {S A B : Type 0} (P : Outcome B × S → Type 0) where
  pub some_rule :
      (o : Option A) (c : ErrorCode) (k : A → Flow S B) (s : S)
      → ((a : A) → o ≡ some a → P (k a s))
      → (o ≡ none → P (failure c, s))
      → P ((require_some o c >>= k) s)
  unfolding ◌>>=◌ require_some
  some_rule none c k s h h' = h' refl
  some_rule (some a) c k s h h' = h a refl

  pub attempt_rule :
      (call : Call S A) (handler : Fault → Flow S A) (k : A → Flow S B) (s : S)
      → ((a : A) → (call s).0 ≡ returned a → P (k a (call s).1))
      → ((e : Fault) → (call s).0 ≡ rejected e → P ((handler e >>= k) (call s).1))
      → P ((attempt call handler >>= k) s)
  unfolding ◌>>=◌ attempt
  attempt_rule call handler k s h h' = go (call s).0 (call s).1 h h'
    where
      go :
          (r : Settled A) (t : S)
          → ((a : A) → r ≡ returned a → P (k a t))
          → ((e : Fault) → r ≡ rejected e → P ((handler e >>= k) t))
          → P (continue (handled r handler t).0 k (handled r handler t).1)
      go (returned a) t h h' = h a refl
      go (rejected e) t h h' = h' e refl

  -- A read that keeps the state, in a `try` that turns its rejection into a failure.
  pub read_rule :
      (call : Call S A) (c : ErrorCode) (k : A → Flow S B) (s : S)
      → (call s).1 ≡ s
      → ((a : A) → (call s).0 ≡ returned a → P (k a s))
      → P (failure c, s)
      → P ((attempt call (λ _. fail c) >>= k) s)
  unfolding ◌>>=◌ fail
  read_rule call c k s same h h' =
      attempt_rule call (λ _. fail c) k s (λ a e. rw same (h a e)) (λ e _. rw same h')

  -- A read that keeps the state, with no `try` around it.
  pub await_rule :
      (call : Call S A) (k : A → Flow S B) (s : S)
      → ((a : A) → (call s).0 ≡ returned a → P (k a (call s).1))
      → ((e : Fault) → (call s).0 ≡ rejected e → P (threw e, (call s).1))
      → P ((await call >>= k) s)
  unfolding ◌>>=◌ await
  await_rule call k s h h' = go (call s).0 (call s).1 h h'
    where
      go :
          (r : Settled A) (t : S)
          → ((a : A) → r ≡ returned a → P (k a t))
          → ((e : Fault) → r ≡ rejected e → P (threw e, t))
          → P (continue (settle r) k t)
      go (returned a) t h h' = h a refl
      go (rejected e) t h h' = h' e refl

  pub try_rule :
      (call : Call S A) (f : A → Flow S B) (h : Fault → Flow S B) (s : S)
      → ((a : A) → (call s).0 ≡ returned a → P (f a (call s).1))
      → ((e : Fault) → (call s).0 ≡ rejected e → P (h e (call s).1))
      → P (try_call call f h s)
  unfolding try_call
  try_rule call f h s q q' = go (call s).0 (call s).1 q q'
    where
      go :
          (r : Settled A) (t : S)
          → ((a : A) → r ≡ returned a → P (f a t))
          → ((e : Fault) → r ≡ rejected e → P (h e t))
          → P (branch r f h t)
      go (returned a) t q q' = q a refl
      go (rejected e) t q q' = q' e refl

  pub missing_rule :
      (o : Option A) (k : A → Flow S B) (s : S)
      → ((a : A) → o ≡ some a → P (k a s))
      → (o ≡ none → P (threw uncoded, s))
      → P ((unguarded o >>= k) s)
  unfolding ◌>>=◌ unguarded
  missing_rule none k s h h' = h' refl
  missing_rule (some a) k s h h' = h a refl

  pub unguarded_rule :
      (o : Option A) (k : A → Flow S B) (s : S)
      → ((a : A) → o ≡ some a → P (k a s))
      → P (threw uncoded, s)
      → P ((unguarded o >>= k) s)
  unguarded_rule o k s h h' = missing_rule o k s h (λ _. h')

  -- Any step, by how it ends.
  pub bind_rule :
      (m : Flow S A) (k : A → Flow S B) (s : S)
      → ((a : A) → (m s).0 ≡ ok a → P (k a (m s).1))
      → ((c : ErrorCode) → (m s).0 ≡ failure c → P (failure c, (m s).1))
      → ((e : Fault) → (m s).0 ≡ threw e → P (threw e, (m s).1))
      → P ((m >>= k) s)
  unfolding ◌>>=◌
  bind_rule m k s h h' h'' = go (m s).0 (m s).1 h h' h''
    where
      go :
          (o : Outcome A) (t : S)
          → ((a : A) → o ≡ ok a → P (k a t))
          → ((c : ErrorCode) → o ≡ failure c → P (failure c, t))
          → ((e : Fault) → o ≡ threw e → P (threw e, t))
          → P (continue o k t)
      go (ok a) t h h' h'' = h a refl
      go (failure c) t h h' h'' = h' c refl
      go (threw e) t h h' h'' = h'' e refl
