-- ===== src/Platform.antt =====
-- What the SDK calls and does not implement: SHA-256 (node:crypto), Ed25519 (@noble/ed25519), UTF-8
-- encoding and `Date.parse`. An instant is a natural number, the milliseconds since the earliest
-- time that a `Date` can hold; only differences and comparisons are used.
use openrep.Prelude.{ℕ, Bool, true, Option, some, List, Text, All, length, ◌≡◌}
use openrep.Hex.{IsByte, is_lowercase_hex_of_length}

-- What `keygenAsync` gives.
pub record KeyPair : Type 0 where
  pub secret : List ℕ
  pub public : List ℕ

pub record Platform : Type 0 where
  -- `createHash("sha256").update(text, "utf8").digest("hex")`
  pub sha256_hex : Text → Text
  -- `getPublicKeyAsync(key)`, `signAsync(message, key)` and
  -- `verifyAsync(signature, message, publicKey, { zip215: false })`; `none` is a rejection.
  pub get_public_key : List ℕ → Option (List ℕ)
  pub sign : List ℕ → List ℕ → Option (List ℕ)
  pub verify : List ℕ → List ℕ → List ℕ → Option Bool
  -- `new TextEncoder().encode(text)`
  pub encode : Text → List ℕ
  -- `none` is NaN.
  pub parse_date : Text → Option ℕ

-- The documented behaviour of the hash and of the signatures.
pub record CryptoLaws (p : Platform) : Type 0 where
  pub digest : (t : Text) → is_lowercase_hex_of_length (p.sha256_hex t) 32 ≡ true
  pub public_key_size :
      (k pk : List ℕ) → p.get_public_key k ≡ some pk → All IsByte pk × (length pk ≡ 32)
  pub signature_size : (m k s : List ℕ) → p.sign m k ≡ some s → All IsByte s × (length s ≡ 64)
  pub sign_verify :
      (m k pk s : List ℕ)
      → p.get_public_key k ≡ some pk
      → p.sign m k ≡ some s
      → p.verify s m pk ≡ some true

-- A generated pair: the public key is the one that belongs to the secret key.
pub record IsKeyPair (p : Platform) (pair : KeyPair) : Type 0 where
  pub bytes : All IsByte pair.secret
  pub derived : p.get_public_key pair.secret ≡ some pair.public
