-- ===== src/Names/Loop.antt =====
-- What the loop over generated names does to the store.
use openrep.Names.{conflict, write_manifest, claim_name, unless_taken, try_names}
use openrep.Storage.{StorageAdapter, ReadsKeepState}
use openrep.Prelude.{
  refl, none, ◌+◌, zero, ◌<◌, arith, some, inr, ◌≤◌, Option, ◌⊎◌, inl, suc, ◌≢◌, ◌≡◌, Text, ℕ,
}
use openrep.Result.{
  returned, uncoded, threw, duplicate_name, continue, storage_write_failed, ok, failure, coded,
  name_generation_exhausted, ◌>>=◌, Outcome, ErrorCode, pure, fail, rejected, Fault, Call, Flow,
}
use openrep.Records.{AgentRecord, AgentManifest}
use openrep.Result.Rules.{try_rule}

module _ {S B : Type 0} (storage : StorageAdapter S) (reads : ReadsKeepState storage)
    (names : ℕ → Text) (build : Text → Flow S AgentManifest)
    (save : AgentManifest → Call S (Unit {0})) (done : AgentManifest → B)
    (build_keeps : (name : Text) (s : S) → (build name s).1 ≡ s)
    (rejected_keeps : (m : AgentManifest) (s : S) (e : Fault)
      → (save m s).0 ≡ rejected e
      → (save m s).1 ≡ s)
    (s : S) where
  -- Nothing is written and nothing returned; or one manifest, of one of the generated names `from`
  -- to `from + left`, has been signed and accepted by the store, once.
  abbrev pub Claims : ℕ → ℕ → Outcome B × S → Type 0
  Claims left from x =
      (((b : B) → x.0 ≢ ok b) × (x.1 ≡ s))
      ⊎ ((i : ℕ) × (manifest : AgentManifest) × (from ≤ i)
          × (i < from + left)
          × ((build (names i) s).0 ≡ ok manifest)
          × ((save manifest s).0 ≡ returned tt)
          × (x ≡ (ok (done manifest), (save manifest s).1)))

  refusal : (left from : ℕ) (c : ErrorCode) → Claims left from (failure c, s)
  refusal left from c = inl (λ b e. cc, refl)

  widen : (left from : ℕ) (x : Outcome B × S) → Claims left (suc from) x → Claims (suc left) from x
  widen left from x (inl h) = inl h
  widen left from x (inr (i, m, low, high, a, b, c)) = inr (i, m, omega arith, omega arith, a, b, c)

  conflict-Claims :
      (left from : ℕ) (e : Fault) (rest : Flow S B)
      → Claims left from (rest s)
      → Claims left from (conflict e rest s)
  unfolding conflict fail
  conflict-Claims left from (coded duplicate_name) rest h = h
  conflict-Claims left from (coded c) rest h = refusal left from storage_write_failed
  conflict-Claims left from uncoded rest h = refusal left from storage_write_failed

  write_manifest-Claims :
      (left from : ℕ) (rest : Flow S B) (m : AgentManifest)
      → (build (names from) s).0 ≡ ok m
      → Claims (suc left) from (rest s)
      → Claims (suc left) from (write_manifest storage names build save done rest m s)
  unfolding write_manifest pure
  write_manifest-Claims left from rest m built h =
      try_rule (Claims (suc left) from) (save m) (λ _. pure (done m)) (λ e. conflict e rest) s
        (λ _ saved. inr (from, m, omega arith, omega arith, built, saved, refl))
        (λ e failed. rw (rejected_keeps m s e failed) (conflict-Claims (suc left) from e rest h))

  claim_name-Claims :
      (left from : ℕ) (rest : Flow S B)
      → Claims (suc left) from (rest s)
      → Claims (suc left) from (claim_name storage names build save done (names from) rest s)
  unfolding claim_name ◌>>=◌
  claim_name-Claims left from rest h =
      rw (build_keeps (names from) s) (go (build (names from) s).0 refl)
    where
      go :
          (o : Outcome AgentManifest)
          → (build (names from) s).0 ≡ o
          → Claims
              (suc left)
              from
              (continue o (write_manifest storage names build save done rest) s)
      go (ok m) built = write_manifest-Claims left from rest m built h
      go (failure c) built = refusal (suc left) from c
      go (threw e) built = inl (λ b e. cc, refl)

  -- Over a store whose reads and refused writes leave it as it is: either no name is claimed and
  -- the store is as it was, or exactly one of the manifests that were tried, of a name among the
  -- generated ones, has been accepted by the store, and it is the one that is returned.
  pub try_names-Claims :
      (left from : ℕ) → Claims left from (try_names storage names build save done left from s)
  unfolding try_names unless_taken fail
  try_names-Claims zero from = refusal zero from name_generation_exhausted
  try_names-Claims (suc left) from =
      let rest : Claims (suc left) from
          (try_names storage names build save done left (suc from) s) =
        widen left from _ (try_names-Claims left (suc from)) in
      try_rule (Claims (suc left) from) (storage.get_agent_by_name (names from)) _ _ s
        (λ found e. rw (reads.name (names from) s) (looked_up found rest))
        (λ _ _. rw (reads.name (names from) s) (claim_name-Claims left from _ rest))
    where
      looked_up :
          (found : Option AgentRecord)
          → Claims (suc left) from (try_names storage names build save done left (suc from) s)
          → Claims (suc left) from (
              unless_taken storage names build save done
                (names from)
                (try_names storage names build save done left (suc from))
                found
                s)
      looked_up none rest = claim_name-Claims left from _ rest
      looked_up (some r) rest = rest
