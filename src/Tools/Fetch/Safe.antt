-- ===== src/Tools/Fetch/Safe.antt =====
-- What `safeFetch` promises of the requests that it makes.
use openrep.Prelude.{◌∙◌, sym, or_else, suc, ◌≡◌, Text, some}
use openrep.Tools.Fetch.{fetch_from, tool_max_redirects, Net, SafeFetchOptions, safe_fetch, Web}
use openrep.Tools.Fetch.Scoped.{admit, fetch_from-Sends, Sends}
use openrep.Tools.Fetch.Guarded.{IsPublic}

module _ {U W : Type 0} (web : Web U W) where
  -- Every request of a run of safeFetch, whatever the network answers, is to a web URL whose host is
  -- an IP literal that isSensitiveIp does not reject or a name that a lookup has resolved to at least
  -- one address and to none that it rejects; it has no header of the caller unless its origin is that
  -- of the URL asked for; and there are at most maxRedirects + 1 of them.
  pub safe_fetch-Sends :
      (url : Text) (options : SafeFetchOptions) (first : U) (n : Net U W)
      → web.parse_url url ≡ some first
      → Sends web
          (web.origin first)
          (suc (or_else options.max_redirects tool_max_redirects))
          n
          (safe_fetch web url options n)
  unfolding safe_fetch
  safe_fetch-Sends url options first n parsed =
      admit web options (web.origin first) (suc (or_else options.max_redirects tool_max_redirects))
        _ url n (λ u t h k. go u t h (same (sym parsed ∙ k)))
    where
      same : {u : U} → some first ≡ some u → first ≡ u
      same e = cc

      go :
          (u : U) (t : Net U W)
          → IsPublic web u
          → first ≡ u
          → Sends web
              (web.origin first)
              (suc (or_else options.max_redirects tool_max_redirects))
              t
              (fetch_from web options
                (web.origin u)
                (or_else options.max_redirects tool_max_redirects)
                u
                t)
      go u t h e = rw e (
          fetch_from-Sends web options (web.origin u)
            (or_else options.max_redirects tool_max_redirects) u t h)
