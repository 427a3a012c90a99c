-- ===== src/Tests/Fetching.antt =====
-- Addresses, and a fetch that is redirected.
use openrep.Prelude.{
  starts_with, text_eq, if◌then◌else◌, false, ◌+◌, [], ◌≡◌, ◌∷◌, Text, text, ℕ, refl, arith, some,
  none,
}
use openrep.Tools.Fetch.{ended, chunk, Web, safe_fetch, SafeFetchOptions, Net}
use openrep.Tools.Address.{is_sensitive_ip}
use openrep.Tools.Fetch.Scoped.{Sends}
use openrep.Tools.Address.Ranges.{is_sensitive_ip-dotted, is_special, dotted}
use openrep.Tools.Fetch.Safe.{safe_fetch-Sends}
use openrep.Result.{ok}

loopback_example : is_sensitive_ip 4 (dotted 127 0 0 1) ≡ is_special 127 0 0 1
loopback_example =
    is_sensitive_ip-dotted 127 0 0 1 (omega arith) (omega arith) (omega arith) (omega arith)

-- The form in which a URL writes the address of the loopback as an IPv6 address.
mapped_loopback : is_sensitive_ip 6 (text "::ffff:7f00:1") ≡ false
unfolding is_sensitive_ip openrep.Tools.Address.is_sensitive_ipv6 openrep.Tools.Address.parse_ipv6
    openrep.Tools.Address.parse_group openrep.Tools.Address.parse_hextet
    openrep.Tools.Address.in_some openrep.Tools.Address.ipv6_private_cidrs
    openrep.Tools.Address.bytes_in_cidr openrep.Tools.Address.same_bits
mapped_loopback = refl

-- A web whose URLs are texts, with one host that sends everything on to another.
abbrev two_hosts : Web Text ℕ
two_hosts = record {
  parse_url = λ t. some t;
  relative = λ location url. some location;
  protocol = λ u. text "https:";
  hostname = λ u. u;
  origin = λ u. u;
  href = λ u. u;
  is_ip = λ h. if starts_with (text "93") h then 4 else 0;
  look_up = λ h n. (some (text "93.184.216.34" ∷ []), n + 1);
  fetch = λ r n. (
    some (
        if text_eq r.url (text "a.example")
        then record { status = 302; location = some (text "b.example"); body = none }
        else record { status = 200; location = none; body = some (chunk (104 ∷ 105 ∷ []) ended) }),
    n + 1,
  );
  decode = λ bytes. bytes;
}

abbrev with_token : SafeFetchOptions
with_token = record {
  max_bytes = none;
  max_redirects = some 1;
  headers = some ((text "authorization", text "token") ∷ []);
}

abbrev offline : Net Text ℕ
offline = record { world = 0; sent = [] }

redirected_body :
    (safe_fetch two_hosts (text "a.example") with_token offline).0
    ≡ ok (record { status = 200; body = text "hi"; final_url = text "b.example" })
unfolding safe_fetch openrep.Result.◌>>=◌ openrep.Tools.Fetch.assert_public_url
    openrep.Result.unguarded openrep.Tools.Fetch.ensure text_eq openrep.Tools.Fetch.check_name
    openrep.Tools.Fetch.look_up_host is_sensitive_ip openrep.Tools.Address.is_sensitive_ipv4
    openrep.Tools.Address.parse_ipv4 openrep.Tools.Address.parse_octet openrep.Tools.Address.in_some
    openrep.Tools.Address.ipv4_private_cidrs openrep.Tools.Address.bytes_in_cidr
    openrep.Tools.Address.same_bits openrep.Result.pure openrep.Tools.Fetch.fetch_from
    openrep.Tools.Fetch.send openrep.Tools.Fetch.after_response openrep.Tools.Fetch.redirected
    openrep.Tools.Fetch.read_body openrep.Tools.Fetch.decoded openrep.Tools.Fetch.read_bytes
redirected_body = refl

safe_fetch-Sends_example :
    Sends two_hosts
      (text "a.example")
      2
      offline
      (safe_fetch two_hosts (text "a.example") with_token offline)
safe_fetch-Sends_example =
    safe_fetch-Sends two_hosts (text "a.example") with_token (text "a.example") offline refl
