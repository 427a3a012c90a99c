-- ===== src/Tools/Fetch.antt =====
-- `assertPublicUrl` and `safeFetch` of packages/sdk/src/tools/guards.ts. An error is thrown whatever
-- its class and message, and the timer is one of the ways in which a request fails.
pub mod Guarded
pub mod Scoped
pub mod Safe
use openrep.Prelude.{
  ◌++◌, ◌+◌, ◌||◌, ◌&&◌, if◌then◌else◌, text_eq, ◌∷◌, or_else, ℕ, zero, suc, Bool, true, false,
  Option, none, some, List, [], Text, text, not, any, length, ◌==◌, ltb, leb,
}
use openrep.Result.{Flow, threw, uncoded, ok, pure, unguarded, ◌>>=◌, ◌>>◌}
use openrep.Tools.Address.{is_sensitive_ip}

abbrev pub tool_max_response_bytes : ℕ
tool_max_response_bytes = 1_000_000

abbrev pub tool_max_redirects : ℕ
tool_max_redirects = 5

-- What a body gives to its reader: chunks of bytes, and an end or an error.
pub data Body : Type 0 where
  ended broken : Body
  chunk : List ℕ → Body → Body

pub record Response : Type 0 where
  pub status : ℕ
  pub location : Option Text
  pub body : Option Body

pub record Request (U : Type 0) : Type 0 where
  pub url : U
  pub headers : List (Text × Text)

-- The platform: the URL class, `isIP`, name resolution, `fetch` and `TextDecoder`. `none` is an
-- error that is thrown.
pub record Web (U W : Type 0) : Type 0 where
  pub parse_url : Text → Option U
  pub relative : Text → U → Option Text
  pub protocol : U → Text
  pub hostname : U → Text
  pub origin : U → Text
  pub href : U → Text
  pub is_ip : Text → ℕ
  pub look_up : Text → W → Option (List Text) × W
  pub fetch : Request U → W → Option Response × W
  pub decode : List ℕ → Text

-- The world, with the requests that have been sent, the last one first.
pub record Net (U W : Type 0) : Type 0 where
  pub world : W
  pub sent : List (Request U)

pub record SafeFetchOptions : Type 0 where
  pub max_bytes : Option ℕ
  pub max_redirects : Option ℕ
  pub headers : Option (List (Text × Text))

pub record SafeFetchResult : Type 0 where
  pub status : ℕ
  pub body : Text
  pub final_url : Text

-- `if (!test) throw …`
unfoldable pub ensure : {S : Type 0} → Bool → Flow S (Unit {0})
ensure true s = (ok tt, s)
ensure false s = (threw uncoded, s)

unfoldable pub throw : {S A : Type 0} → Flow S A
throw s = (threw uncoded, s)

-- The brackets around an IPv6 literal.
abbrev drop_bracket : Text → Text
drop_bracket [] = []
drop_bracket (c ∷ []) = []
drop_bracket (c ∷ d ∷ t) = c ∷ drop_bracket (d ∷ t)

abbrev ends_in_bracket : Text → Bool
ends_in_bracket [] = false
ends_in_bracket (c ∷ []) = c == 93
ends_in_bracket (c ∷ d ∷ t) = ends_in_bracket (d ∷ t)

abbrev pub bare_host : Text → Text
bare_host [] = []
bare_host (c ∷ t) = if (c == 91) && ends_in_bracket (c ∷ t) then drop_bracket t else c ∷ t

abbrev pub is_web_protocol : Text → Bool
is_web_protocol p = text_eq p (text "http:") || text_eq p (text "https:")

-- The bytes of a body, read up to the cap.
unfoldable pub read_bytes : ℕ → ℕ → Body → Option (List ℕ)
read_bytes max total ended = some []
read_bytes max total broken = none
read_bytes max total (chunk bytes rest) =
    if ltb max (total + length bytes)
    then none
    else elim (read_bytes max (total + length bytes) rest) [
      | none ↦ none
      | some more ↦ some (bytes ++ more)
    ]

abbrev pub with_header : Text × Text → List (Text × Text) → List (Text × Text)
with_header (name, v) [] = (name, v) ∷ []
with_header (name, v) ((n, w) ∷ headers) =
    if text_eq n name then (name, v) ∷ headers else (n, w) ∷ with_header (name, v) headers

abbrev pub base_headers : List (Text × Text)
base_headers = (text "user-agent", text "openrep-tool/0.1") ∷ []

abbrev pub with_headers : List (Text × Text) → List (Text × Text) → List (Text × Text)
with_headers headers [] = headers
with_headers headers (h ∷ custom) = with_headers (with_header h headers) custom

module _ {U W : Type 0} (web : Web U W) where
  unfoldable pub look_up_host : Text → Flow (Net U W) (List Text)
  look_up_host host n =
      let answer = web.look_up host n.world in
      elim answer.0 [
        | none ↦ (threw uncoded, record n { world = answer.1 })
        | some addresses ↦ (ok addresses, record n { world = answer.1 })
      ]

  unfoldable pub send : Request U → Flow (Net U W) Response
  send request n =
      let answer = web.fetch request n.world in
      elim answer.0 [
        | none ↦ (threw uncoded, record { world = answer.1; sent = request ∷ n.sent })
        | some response ↦ (ok response, record { world = answer.1; sent = request ∷ n.sent })
      ]

  abbrev pub is_sensitive : Text → Bool
  is_sensitive address = is_sensitive_ip (web.is_ip address) address

  -- A literal is tested itself, and a name by every address it has.
  unfoldable pub check_literal : U → Text → Flow (Net U W) U
  check_literal u host = do ensure (not (is_sensitive host)); pure u

  unfoldable pub check_name : U → Text → Flow (Net U W) U
  check_name u host = do
    addresses ← look_up_host host
    ensure (not (length addresses == 0))
    ensure (not (any is_sensitive addresses))
    pure u

  unfoldable pub assert_public_url : Text → Flow (Net U W) U
  assert_public_url url = do
    u ← unguarded (web.parse_url url)
    ensure (is_web_protocol (web.protocol u))
    if not (web.is_ip (bare_host (web.hostname u)) == 0)
        then check_literal u (bare_host (web.hostname u))
        else check_name u (bare_host (web.hostname u))

  module _ (options : SafeFetchOptions) (origin : Text) where
    -- Custom headers go to the origin that was asked for, and to no other.
    abbrev pub headers_for : U → List (Text × Text)
    headers_for current = elim options.headers [
      | none ↦ base_headers
      | some custom ↦
          if text_eq (web.origin current) origin
          then with_headers base_headers custom
          else base_headers
    ]

    abbrev pub request_to : U → Request U
    request_to current = record { url = current; headers = headers_for current }

    abbrev pub result_of : U → Response → Text → SafeFetchResult
    result_of current response body = record {
      status = response.status;
      body = body;
      final_url = web.href current;
    }

    unfoldable pub decoded : U → Response → Option (List ℕ) → Flow (Net U W) SafeFetchResult
    decoded current response none = throw
    decoded current response (some bytes) = pure (result_of current response (web.decode bytes))

    unfoldable pub read_body : U → Response → Option Body → Flow (Net U W) SafeFetchResult
    read_body current response none = pure (result_of current response [])
    read_body current response (some body) =
        decoded current response
          (read_bytes (or_else options.max_bytes tool_max_response_bytes) 0 body)

    -- `follow` takes the next hop.
    unfoldable pub redirected :
        U
        → (Text → Flow (Net U W) SafeFetchResult)
        → Response
        → Option Text
        → Flow (Net U W) SafeFetchResult
    redirected current follow response none = pure (result_of current response [])
    redirected current follow response (some location) = follow location

    unfoldable pub after_response :
        U → (Text → Flow (Net U W) SafeFetchResult) → Response → Flow (Net U W) SafeFetchResult
    after_response current follow response =
        if leb 300 response.status && ltb response.status 400
        then redirected current follow response response.location
        else read_body current response response.body

    -- The loop, on the redirects that are left.
    unfoldable pub fetch_from : ℕ → U → Flow (Net U W) SafeFetchResult
    fetch_from zero current = do
      response ← send (request_to current)
      after_response current (λ location. throw) response
    fetch_from (suc left) current = do
      response ← send (request_to current)
      after_response current
          (λ location. do
            next ← unguarded (web.relative location current)
            u ← assert_public_url next
            fetch_from left u)
          response

  unfoldable pub safe_fetch : Text → SafeFetchOptions → Flow (Net U W) SafeFetchResult
  safe_fetch url options = do
    first ← assert_public_url url
    fetch_from options (web.origin first) (or_else options.max_redirects tool_max_redirects) first
