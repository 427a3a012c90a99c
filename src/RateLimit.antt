-- ===== src/RateLimit.antt =====
-- apps/web/src/server/rate-limit.ts: the class `FixedWindowRateLimiter`. `now` is `Date.now()`.
pub mod Alone
use openrep.Prelude.{
  [], ◌∷◌, keep_entries, length, false, ◌+◌, leb, true, get_entry, set_entry, ltb, Option, not,
  Text, List, Bool, if◌then◌else◌, ℕ, none, some,
}

pub record Bucket : Type 0 where
  pub window_start : ℕ
  pub count : ℕ

abbrev pub sweep_threshold : ℕ
sweep_threshold = 10_000

pub record FixedWindowRateLimiter : Type 0 where
  pub window_ms : ℕ
  pub max_requests : ℕ
  pub buckets : List (Text × Bucket)

abbrev pub is_over : ℕ → ℕ → Bucket → Bool
is_over window_ms now b = leb (b.window_start + window_ms) now

abbrev pub is_live : ℕ → ℕ → Bucket → Bool
is_live window_ms now b = not (is_over window_ms now b)

unfoldable pub sweep : ℕ → FixedWindowRateLimiter → FixedWindowRateLimiter
sweep now l =
    if ltb (length l.buckets) sweep_threshold
    then l
    else record l { buckets = keep_entries (is_live l.window_ms now) l.buckets }

abbrev pub with_bucket : Text → Bucket → FixedWindowRateLimiter → FixedWindowRateLimiter
with_bucket key b l = record l { buckets = set_entry key b l.buckets }

-- A window begins with this request.
unfoldable pub begin_window : Text → ℕ → FixedWindowRateLimiter → Bool × FixedWindowRateLimiter
begin_window key now l =
    (true, sweep now (with_bucket key (record { window_start = now; count = 1 }) l))

unfoldable pub count_request :
    Text → Bucket → FixedWindowRateLimiter → Bool × FixedWindowRateLimiter
count_request key b l =
    if leb l.max_requests b.count
    then (false, l)
    else (true, with_bucket key (record b { count = b.count + 1 }) l)

unfoldable pub allow_with :
    Text → ℕ → FixedWindowRateLimiter → Option Bucket → Bool × FixedWindowRateLimiter
allow_with key now l none = begin_window key now l
allow_with key now l (some b) =
    if is_over l.window_ms now b then begin_window key now l else count_request key b l

unfoldable pub allow : Text → ℕ → FixedWindowRateLimiter → Bool × FixedWindowRateLimiter
allow key now l = allow_with key now l (get_entry key l.buckets)

-- The answers to requests of keys at times.
unfoldable pub serve : FixedWindowRateLimiter → List (Text × ℕ) → List (Text × Bool)
serve l [] = []
serve l ((key, now) ∷ requests) = let r = allow key now l in (key, r.0) ∷ serve r.1 requests
