-- ===== src/Net.antt =====
-- The guard on outbound requests: src/net/ssrfGuard.ts, and the network capability of tools in
-- src/ai/tools/scopes/network.scope.ts. The URL parser, `isIP`, the DNS and `fetch` are the
-- platform's and enter as `Network`, and the DNS may answer otherwise at another moment; a call of them
-- that throws is a result.
pub mod Egress
use capybara_ai.Prelude.{
  ℕ, zero, suc, ◌+◌, ◌-◌, ◌*◌, Bool, true, false, Option, none, some, List, [], ◌∷◌, includes, leb,
  strip_prefix, starts_with, if◌then◌else◌, ◌==◌, nat_eq, string_eq, ◌&&◌, ◌||◌, not, is_some,
}
use capybara_ai.Prelude.Effect.{Result, ok, throw}
use capybara_ai.Tools.{NetworkScope}
use Prim.Native.String.{String, ◌++◌ as append}
use Prim.Native.Char.{Char, code}

pub record Url : Type 0 where
  pub protocol : String
  pub hostname : String

-- What `fetch` comes to, and the addresses that it connected to: it resolves the host itself, and follows
-- redirects.
pub record FetchRun : Type 0 where
  pub outcome : Result String String
  pub contacted : List String

-- A call of the network capability: its outcome, the URLs that it had fetched, and what was contacted.
pub record NetRun : Type 0 where
  pub outcome : Result String String
  pub requested : List String
  pub contacted : List String

pub record Network : Type 0 where
  pub parse_url : String → Option Url
  -- 4, 6, or 0 for no address
  pub is_ip : String → ℕ
  -- what the DNS answers at a moment
  pub lookup : ℕ → String → Result String String
  pub lookup_all : ℕ → String → Result String (List String)
  pub to_lower_case : String → String
  -- a request that is made at a moment
  pub fetch : ℕ → String → FetchRun

pub record SsrfGuardOptions : Type 0 where
  pub allowed_hosts : List String
  pub allow_private_ranges : Bool

-- `ip.split('.').map((p) => Number.parseInt(p, 10))` for texts of digits and dots, which is what
-- `isIP` answers 4 for.
abbrev pub octets_from : ℕ → String → List ℕ
octets_from n String.[] = n ∷ []
octets_from n (String.◌∷◌ c s) =
    let after_dot = octets_from 0 s in
    let after_digit = octets_from (n * 10 + (code c - 48)) s in
    if code c == 46 then n ∷ after_dot else after_digit

abbrev pub ip_to_parts : String → List ℕ
ip_to_parts ip = octets_from 0 ip

abbrev pub between : ℕ → ℕ → ℕ → Bool
between low high n = leb low n && leb n high

-- The ranges of IPv4; an address of fewer than two parts is blocked.
unfoldable pub is_blocked_v4 : List ℕ → Bool
is_blocked_v4 [] = true
is_blocked_v4 (a ∷ []) = true
is_blocked_v4 (a ∷ b ∷ rest) =
    a == 10
    || a == 127
    || a == 0
    || (a == 169 && b == 254)
    || (a == 172 && between 16 31 b)
    || (a == 192 && b == 168)
    || (a == 100 && between 64 127 b)

module _ (net : Network) where
  -- The end of the function: the recursive call is made on an address of family 4.
  abbrev pub is_blocked_mapped : Option String → Bool
  is_blocked_mapped none = false
  is_blocked_mapped (some v4) = net.is_ip v4 == 4 && is_blocked_v4 (ip_to_parts v4)

  abbrev pub is_blocked_v6 : String → Bool
  is_blocked_v6 lower =
      lower == "::1"
      || lower == "::"
      || starts_with lower "fe80"
      || starts_with lower "fc"
      || starts_with lower "fd"
      || is_blocked_mapped (strip_prefix "::ffff:" lower)

  unfoldable pub is_blocked_address : String → Bool
  unfolding is_blocked_v4
  is_blocked_address ip =
      if net.is_ip ip == 4
      then is_blocked_v4 (ip_to_parts ip)
      else is_blocked_v6 (net.to_lower_case ip)

  abbrev pub with_address : Url → Result String String → Result String (Url × String)
  with_address url (throw e) = throw e
  with_address url (ok address) = ok (url, address)

  -- The loop over the resolved addresses, and what follows it, from the first of them.
  abbrev pub check_resolved :
      SsrfGuardOptions → Url → Option String → List String → Result String (Url × String)
  check_resolved o url none [] = throw "host did not resolve"
  check_resolved o url (some first) [] = ok (url, first)
  check_resolved o url first (ip ∷ ips) =
      let rest = check_resolved o url first ips in
      if is_blocked_address ip && not o.allow_private_ranges
      then throw (append "target resolves to a blocked address: " ip)
      else rest

  abbrev pub first_of : List String → Option String
  first_of [] = none
  first_of (ip ∷ ips) = some ip

  abbrev pub after_lookup :
      SsrfGuardOptions → Url → Result String (List String) → Result String (Url × String)
  after_lookup o url (throw e) = throw e
  after_lookup o url (ok ips) = check_resolved o url (first_of ips) ips

  abbrev pub is_address : String → Bool
  is_address host = not (net.is_ip host == 0)

module _ (net : Network) (now : ℕ) where
  abbrev pub resolve : String → Result String (List String)
  resolve host = if is_address net host then ok (host ∷ []) else net.lookup_all now host

  abbrev pub check_host : SsrfGuardOptions → Url → Result String (Url × String)
  check_host o url =
      if includes o.allowed_hosts url.hostname
      then with_address net url
          (if is_address net url.hostname then ok url.hostname else net.lookup now url.hostname)
      else after_lookup net o url (resolve url.hostname)

  abbrev pub check_url : SsrfGuardOptions → Option Url → Result String (Url × String)
  check_url o none = throw "invalid URL"
  check_url o (some url) =
      if not (url.protocol == "http:") && not (url.protocol == "https:")
      then throw (append "disallowed protocol: " url.protocol)
      else check_host o url

  unfoldable pub assert_url_allowed : String → SsrfGuardOptions → Result String (Url × String)
  unfolding is_blocked_address
  assert_url_allowed text o = check_url o (net.parse_url text)

-- The call ends before a request is made.
abbrev pub refused : String → NetRun
refused why = record { outcome = throw why; requested = []; contacted = [] }

abbrev pub fetched : String → FetchRun → NetRun
fetched text run = record {
  outcome = run.outcome;
  requested = text ∷ [];
  contacted = run.contacted;
}

-- `createNetCapability(scope).fetch`; the guard resolves the host at `now`, and the request is made later.
module _ (net : Network) (now later : ℕ) where
  abbrev pub fetch_if : String → Result String (Url × String) → NetRun
  fetch_if text (throw e) = refused e
  fetch_if text (ok _) = fetched text (net.fetch later text)

  abbrev pub fetch_listed : NetworkScope → String → Option Url → NetRun
  fetch_listed scope text none = refused "invalid URL"
  fetch_listed scope text (some url) =
      if not (includes scope.allowed_hosts url.hostname)
      then refused (append "host not allowlisted: " url.hostname)
      else fetch_if text (
          assert_url_allowed net now text
            (record { allowed_hosts = []; allow_private_ranges = scope.allow_private_ranges }))

  unfoldable pub net_fetch : Option NetworkScope → String → NetRun
  unfolding assert_url_allowed
  net_fetch none text = refused "network access not granted"
  net_fetch (some scope) text = fetch_listed scope text (net.parse_url text)
