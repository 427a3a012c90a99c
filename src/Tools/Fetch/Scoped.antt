-- ===== src/Tools/Fetch/Scoped.antt =====
-- The requests of a run of `safeFetch`.
use openrep.Prelude.{
  length-append, append_assoc, sym, ap, ◌+◌, ◌∙◌, zero, All-append, suc, ltb, ◌&&◌, leb, [], refl,
  if◌then◌else◌, some, none,
}
use openrep.Tools.Fetch.{
  assert_public_url, decoded, redirected, fetch_from, Body, with_headers, Response, throw,
  base_headers, after_response, read_body, SafeFetchResult, Net, request_to, Request, send,
  SafeFetchOptions, Web,
}
use openrep.Prelude.{All, ◌≤◌, length, arith, ◌++◌, ◌∷◌, false, Option, ◌≡◌, List, text_eq, ℕ, Text}
use openrep.Result.{uncoded, threw, failure, ◌>>=◌, Flow, pure, Outcome}
use openrep.Tools.Fetch.Guarded.{assert_public_url-Admits, IsPublic}
use openrep.Result.Rules.{bind_rule, unguarded_rule, if_rule}

module _ {U W : Type 0} (web : Web U W) where
  -- A request to a public URL, with no header of the caller unless it goes to this origin.
  pub record IsScoped (origin : Text) (r : Request U) : Type 0 where
    pub public : IsPublic web r.url
    pub headers : text_eq (web.origin r.url) origin ≡ false → r.headers ≡ base_headers

  -- The run sent at most that many requests, each scoped to the origin of the URL asked for.
  abbrev pub Sends : Text → ℕ → Net U W → Outcome SafeFetchResult × Net U W → Type 0
  Sends origin bound n x =
      (requests : List (Request U)) × (x.1.sent ≡ requests ++ n.sent)
      × (length requests ≤ bound)
      × All (IsScoped origin) requests

  module _ (options : SafeFetchOptions) (origin : Text) where
    request_to-IsScoped :
        (u : U) → IsPublic web u → IsScoped origin (request_to web options origin u)
    request_to-IsScoped u h = record { public = h; headers = scoped options.headers }
      where
        scoped :
            (custom : Option (List (Text × Text)))
            → text_eq (web.origin u) origin ≡ false
            → elim custom [
              | none ↦ base_headers
              | some c ↦
                  if text_eq (web.origin u) origin
                  then with_headers base_headers c
                  else base_headers
            ]
              ≡ base_headers
        scoped none k = refl
        scoped (some c) k = rw k refl

    send-sent : (r : Request U) (n : Net U W) → (send web r n).1.sent ≡ r ∷ n.sent
    unfolding send
    send-sent r n = ground arith

    module _ (P : Outcome SafeFetchResult × Net U W → Type 0) (t : Net U W)
        (any_end : (o : Outcome SafeFetchResult) → P (o, t)) where
      decoded_rule :
          (u : U) (response : Response) (bytes : Option (List ℕ))
          → P (decoded web options origin u response bytes t)
      unfolding decoded pure throw
      decoded_rule u response none = any_end _
      decoded_rule u response (some bytes) = any_end _

      read_body_rule :
          (u : U) (response : Response) (body : Option Body)
          → P (read_body web options origin u response body t)
      unfolding read_body pure
      read_body_rule u response none = any_end _
      read_body_rule u response (some body) = decoded_rule u response _

      redirected_rule :
          (u : U) (follow : Text → Flow (Net U W) SafeFetchResult) (response : Response)
          → ((location : Text) → P (follow location t))
          → (location : Option Text)
          → P (redirected web options origin u follow response location t)
      unfolding redirected pure
      redirected_rule u follow response h none = any_end _
      redirected_rule u follow response h (some l) = h l

      after_response_rule :
          (u : U) (follow : Text → Flow (Net U W) SafeFetchResult) (response : Response)
          → ((location : Text) → P (follow location t))
          → P (after_response web options origin u follow response t)
      unfolding after_response
      after_response_rule u follow response h =
          if_rule P (leb 300 response.status && ltb response.status 400) _ _ t
            (λ redirects. redirected_rule u follow response h response.location)
            (λ final. read_body_rule u response response.body)

    -- A run that sends nothing, and one that goes on from a state with the same requests.
    pub silent :
        (bound : ℕ) (n t : Net U W) (o : Outcome SafeFetchResult)
        → t.sent ≡ n.sent
        → Sends origin bound n (o, t)
    silent bound n t o h = ([], h, omega arith, tt)

    moved :
        (bound : ℕ) (n t : Net U W) (x : Outcome SafeFetchResult × Net U W)
        → t.sent ≡ n.sent
        → Sends origin bound t x
        → Sends origin bound n x
    moved bound n t x sent (requests, h, few, all) =
        (requests, h ∙ ap (λ s. requests ++ s) sent, few, all)

    -- One request and what follows it.
    further :
        (bound : ℕ) (r : Request U) (n t : Net U W) (x : Outcome SafeFetchResult × Net U W)
        → t.sent ≡ r ∷ n.sent
        → IsScoped origin r
        → Sends origin bound t x
        → Sends origin (suc bound) n x
    further bound r n t x sent scoped (requests, h, few, all) = (
      requests ++ r ∷ [],
      h ∙ ap (λ s. requests ++ s) sent ∙ sym (append_assoc requests (r ∷ []) n.sent),
      few_more (length-append requests (r ∷ [])),
      All-append (IsScoped origin) requests (r ∷ []) all (scoped, tt),
    )
      where
        few_more :
            length (requests ++ r ∷ []) ≡ length requests + 1
            → length (requests ++ r ∷ []) ≤ suc bound
        few_more e = omega (arith, e, few)

    one_request :
        (bound : ℕ) (u : U) (follow : Text → Flow (Net U W) SafeFetchResult) (n : Net U W)
        → IsPublic web u
        → ((location : Text) (t : Net U W) → Sends origin bound t (follow location t))
        → Sends origin (suc bound) n (
            (send web (request_to web options origin u)
                >>= after_response web options origin u follow)
              n)
    one_request bound u follow n public h =
        bind_rule (Sends origin (suc bound) n) (send web r) _ n
          (λ response e.
            after_response_rule (Sends origin (suc bound) n) t (λ o. after o) u follow response
              (λ location.
                further bound r n t (follow location t) (send-sent r n) scoped (h location t)))
          (λ c e. after (failure c)) (λ e _. after (threw e))
      where
        r : Request U
        r = request_to web options origin u

        t : Net U W
        t = (send web r n).1

        scoped : IsScoped origin r
        scoped = request_to-IsScoped u public

        after : (o : Outcome SafeFetchResult) → Sends origin (suc bound) n (o, t)
        after o = further bound r n t (o, t) (send-sent r n) scoped (silent bound t t o refl)

    -- What a hop does before the request that it makes.
    pub admit :
        (bound : ℕ) (k : U → Flow (Net U W) SafeFetchResult) (url : Text) (n : Net U W)
        → ((u : U) (t : Net U W)
            → IsPublic web u
            → web.parse_url url ≡ some u
            → Sends origin bound t (k u t))
        → Sends origin bound n ((assert_public_url web url >>= k) n)
    admit bound k url n h =
        bind_rule (Sends origin bound n) (assert_public_url web url) k n
          (λ u e. moved bound n t (k u t) same (
            h u t ((assert_public_url-Admits web url n).1 u e).0
              ((assert_public_url-Admits web url n).1 u e).1))
          (λ c e. silent bound n t (failure c) same) (λ c e. silent bound n t (threw c) same)
      where
        t : Net U W
        t = (assert_public_url web url n).1

        same : t.sent ≡ n.sent
        same = (assert_public_url-Admits web url n).0

    pub fetch_from-Sends :
        (left : ℕ) (u : U) (n : Net U W)
        → IsPublic web u
        → Sends origin (suc left) n (fetch_from web options origin left u n)
    unfolding fetch_from throw
    fetch_from-Sends zero u n public =
        one_request 0 u (λ location. throw) n public
          (λ location t. silent 0 t t (threw uncoded) refl)
    fetch_from-Sends (suc left) u n public = one_request (suc left) u _ n public (λ location t.
        unguarded_rule (Sends origin (suc left) t) _ _ t
          (λ next e. admit (suc left) _ next t (λ v s h k. fetch_from-Sends left v s h))
          (silent (suc left) t t (threw uncoded) refl))
