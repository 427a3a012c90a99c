-- ===== src/Tools/Fetch/Guarded.antt =====
-- What `safeFetch` sends, and where.
use openrep.Tools.Fetch.{
  is_sensitive, bare_host, is_web_protocol, Web, Net, ensure, check_literal, check_name,
  look_up_host, assert_public_url,
}
use openrep.Result.{◌>>◌, uncoded, Fault, ErrorCode, pure, ◌>>=◌, ok, failure, threw, Flow, Outcome}
use openrep.Result.Rules.{unguarded_rule, bind_rule, if_rule}
use openrep.Prelude.{
  sym, any, length, ◌⊎◌, refl, not, List, arith, ◌==◌, Bool, Text, ◌≡◌, true, false, some, inl, inr,
}

module _ {S B : Type 0} (P : Outcome B × S → Type 0) where
  ensure_rule :
      (b : Bool) (k : Flow S B) (s : S)
      → (b ≡ true → P (k s))
      → P (threw uncoded, s)
      → P ((ensure b >> k) s)
  unfolding ensure ◌>>=◌
  ensure_rule true k s h h' = h refl
  ensure_rule false k s h h' = h'

module _ {U W : Type 0} (web : Web U W) where
  abbrev host_of : U → Text
  host_of u = bare_host (web.hostname u)

  -- A URL of the web whose host is a literal that is not sensitive, or a name that some lookup has
  -- resolved to addresses of which none is.
  pub record IsPublic (u : U) : Type 0 where
    pub protocol : is_web_protocol (web.protocol u) ≡ true
    pub host :
        (((web.is_ip (host_of u) == 0) ≡ false) × (is_sensitive web (host_of u) ≡ false))
        ⊎ ((w : W) × (addresses : List Text) × ((web.look_up (host_of u) w).0 ≡ some addresses)
            × ((length addresses == 0) ≡ false)
            × (any (is_sensitive web) addresses ≡ false))

  abbrev Admits : Text → Net U W → Outcome U × Net U W → Type 0
  Admits url n x =
      (x.1.sent ≡ n.sent) × ((u : U) → x.0 ≡ ok u → IsPublic u × (web.parse_url url ≡ some u))

  refuses :
      (url : Text) (n : Net U W) (e : Fault) (t : Net U W)
      → t.sent ≡ n.sent
      → Admits url n (threw e, t)
  refuses url n e t h = (h, λ u k. absurd (no_value k))
    where
      no_value : {u : U} → ¬ (threw e ≡ ok u)
      no_value k = cc

  fails :
      (url : Text) (n : Net U W) (c : ErrorCode) (t : Net U W)
      → t.sent ≡ n.sent
      → Admits url n (failure c, t)
  fails url n c t h = (h, λ u k. absurd (no_value k))
    where
      no_value : {u : U} → ¬ (failure c ≡ ok u)
      no_value k = cc

  admitted :
      (url : Text) (n t : Net U W) (u : U)
      → t.sent ≡ n.sent
      → IsPublic u
      → web.parse_url url ≡ some u
      → Admits url n (pure u t)
  unfolding pure
  admitted url n t u h k parsed = (h, λ v e. admits_same (same e))
    where
      same : {v : U} → ok u ≡ ok v → u ≡ v
      same e = cc

      admits_same : {v : U} → u ≡ v → IsPublic v × (web.parse_url url ≡ some v)
      admits_same e = rw (sym e) (k, parsed)

  look_up_host-sent : (host : Text) (n : Net U W) → (look_up_host web host n).1.sent ≡ n.sent
  unfolding look_up_host
  look_up_host-sent host n = ground arith

  look_up_host-answer :
      (host : Text) (n : Net U W) (addresses : List Text)
      → (look_up_host web host n).0 ≡ ok addresses
      → (web.look_up host n.world).0 ≡ some addresses
  unfolding look_up_host
  look_up_host-answer host n addresses h = ground (arith, h)

  not-right : {b : Bool} → not b ≡ true → b ≡ false
  not-right {b} h = ground arith

  check_literal-Admits :
      (url : Text) (u : U) (n : Net U W)
      → web.parse_url url ≡ some u
      → is_web_protocol (web.protocol u) ≡ true
      → (web.is_ip (host_of u) == 0) ≡ false
      → Admits url n (check_literal web u (host_of u) n)
  unfolding check_literal
  check_literal-Admits url u n parsed protocol literal =
      ensure_rule (Admits url n) _ _ n
        (λ safe.
          admitted url n n u refl
            (record { protocol = protocol; host = inl (literal, not-right safe) }) parsed)
        (refuses url n _ n refl)

  check_name-Admits :
      (url : Text) (u : U) (n : Net U W)
      → web.parse_url url ≡ some u
      → is_web_protocol (web.protocol u) ≡ true
      → Admits url n (check_name web u (host_of u) n)
  unfolding check_name
  check_name-Admits url u n parsed protocol =
      bind_rule (Admits url n) (look_up_host web (host_of u)) _ n
        (λ addresses found.
          ensure_rule (Admits url n) _ _ _
            (λ some_address.
              ensure_rule (Admits url n) _ _ _
                (λ safe.
                  admitted url n (look_up_host web (host_of u) n).1 u
                    (look_up_host-sent (host_of u) n)
                    (record {
                      protocol = protocol;
                      host = inr (
                        n.world,
                        addresses,
                        look_up_host-answer (host_of u) n addresses found,
                        not-right some_address,
                        not-right safe,
                      );
                    })
                    parsed)
                (refuses url n _ (look_up_host web (host_of u) n).1
                  (look_up_host-sent (host_of u) n)))
            (refuses url n _ (look_up_host web (host_of u) n).1 (look_up_host-sent (host_of u) n)))
        (λ c failed.
          fails url n c (look_up_host web (host_of u) n).1 (look_up_host-sent (host_of u) n))
        (λ e failed.
          refuses url n e (look_up_host web (host_of u) n).1 (look_up_host-sent (host_of u) n))

  pub assert_public_url-Admits :
      (url : Text) (n : Net U W) → Admits url n (assert_public_url web url n)
  unfolding assert_public_url
  assert_public_url-Admits url n =
      unguarded_rule (Admits url n) _ _ n
        (λ u parsed.
          ensure_rule (Admits url n) _ _ n
            (λ protocol.
              if_rule (Admits url n) _ _ _ n
                (λ literal. check_literal-Admits url u n parsed protocol (not-right literal))
                (λ name. check_name-Admits url u n parsed protocol))
            (refuses url n _ n refl))
        (refuses url n _ n refl)
