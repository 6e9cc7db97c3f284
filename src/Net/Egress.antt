-- ===== src/Net/Egress.antt =====
-- Where a request may go that src/net/ssrfGuard.ts or src/ai/tools/scopes/network.scope.ts lets through.
use capybara_ai.Prelude.{
  ℕ, String, Bool, true, false, Bool-cases, Option, none, some, List, [], ◌∷◌, includes, ◌==◌,
  nat_eq, string_eq, ◌&&◌, not, ◌≡◌, refl, arith, eq_iff, ◌⊎◌, inl, inr, All,
}
use capybara_ai.Prelude.Effect.{Result, ok, throw, is_ok}
use capybara_ai.Tools.{NetworkScope}
use capybara_ai.Net.{
  Url, Network, NetRun, SsrfGuardOptions, is_blocked_address, check_resolved, first_of,
  after_lookup, resolve, check_url, assert_url_allowed, fetch_if, fetch_listed, net_fetch,
}

abbrev pub no_hosts : Bool → SsrfGuardOptions
no_hosts allow = record { allowed_hosts = []; allow_private_ranges = allow }

module _ (net : Network) (now : ℕ) where
  abbrev pub Public : Bool → List String → Type 0
  Public allow ips = (allow ≡ true) ⊎ All (λ ip. is_blocked_address net ip ≡ false) ips

  -- A web address whose host resolves at that moment, to no blocked address unless private ranges are allowed.
  pub record IsSafe (allow : Bool) (text : String) : Type 0 where
    pub url : Url
    pub parsed : net.parse_url text ≡ some url
    pub web : (url.protocol ≡ "http:") ⊎ (url.protocol ≡ "https:")
    pub ips : List String
    pub resolved : resolve net now url.hostname ≡ ok ips
    pub public : Public allow ips

  resolved-Public :
      (allow : Bool) (url : Url) (first : Option String) (ips : List String)
      → is_ok (check_resolved net (no_hosts allow) url first ips) ≡ true
      → Public allow ips
  resolved-Public true url first ips passes = inl refl
  resolved-Public false url first [] passes = inr tt
  resolved-Public false url first (ip ∷ ips) passes =
      elim (Bool-cases (is_blocked_address net ip)) [
        | inl blocked ↦ absurd (cc (rw blocked at passes))
        | inr open_ip ↦ more open_ip (resolved-Public false url first ips (rw open_ip at passes))
      ]
    where
      more : is_blocked_address net ip ≡ false → Public false ips → Public false (ip ∷ ips)
      more h (inl e) = inl e
      more h (inr k) = inr (h, k)

  is_web :
      (url : Url)
      → (not (url.protocol == "http:") && not (url.protocol == "https:")) ≡ false
      → (url.protocol ≡ "http:") ⊎ (url.protocol ≡ "https:")
  is_web url h = elim (Bool-cases (url.protocol == "http:")) [
    | inl plain ↦ inl ((eq_iff url.protocol "http:").0 plain)
    | inr other ↦ inr ((eq_iff url.protocol "https:").0 (ground arith))
  ]

  lookup-IsSafe :
      (allow : Bool) (text : String) (url : Url) (found : Result String (List String))
      → net.parse_url text ≡ some url
      → (url.protocol ≡ "http:") ⊎ (url.protocol ≡ "https:")
      → resolve net now url.hostname ≡ found
      → is_ok (after_lookup net (no_hosts allow) url found) ≡ true
      → IsSafe allow text
  lookup-IsSafe allow text url (throw e) parsed web resolved passes = absurd (ground arith)
  lookup-IsSafe allow text url (ok ips) parsed web resolved passes = record {
    url = url;
    parsed = parsed;
    web = web;
    ips = ips;
    resolved = resolved;
    public = resolved-Public allow url (first_of net ips) ips passes;
  }

  url-IsSafe :
      (allow : Bool) (text : String) (parsed : Option Url)
      → net.parse_url text ≡ parsed
      → is_ok (check_url net now (no_hosts allow) parsed) ≡ true
      → IsSafe allow text
  url-IsSafe allow text none parsed passes = absurd (ground arith)
  url-IsSafe allow text (some url) parsed passes =
      elim (Bool-cases (not (url.protocol == "http:") && not (url.protocol == "https:"))) [
        | inl other ↦ absurd (cc (rw other at passes))
        | inr web ↦
            lookup-IsSafe allow text url (resolve net now url.hostname) parsed (is_web url web) refl
              (rw web at passes)
      ]

  -- Without a list of exempt hosts the guard lets a URL through only if it parses, its protocol is
  -- http or https, its host resolves, and, unless private ranges are allowed, not one of the resolved
  -- addresses is blocked.
  assert_url_allowed-IsSafe :
      (allow : Bool) (text : String)
      → is_ok (assert_url_allowed net now text (no_hosts allow)) ≡ true
      → IsSafe allow text
  unfolding assert_url_allowed
  assert_url_allowed-IsSafe allow text passes =
      url-IsSafe allow text (net.parse_url text) refl passes

  abbrev pub IsListed : NetworkScope → String → Type 0
  IsListed scope text =
      (url : Url) × (net.parse_url text ≡ some url)
      × (includes scope.allowed_hosts url.hostname ≡ true)

  -- Either nothing is requested and nothing is contacted, or the URL was permitted and is requested once, and
  -- what `fetch` contacts for it later is contacted.
  abbrev pub IsGuarded : ℕ → Option NetworkScope → String → NetRun → Type 0
  IsGuarded later scope text run =
      ((run.requested ≡ []) × (run.contacted ≡ []) × (is_ok run.outcome ≡ false))
      ⊎ ((s : NetworkScope) × (scope ≡ some s)
          × IsListed s text
          × IsSafe s.allow_private_ranges text
          × (run.requested ≡ text ∷ [])
          × (run.contacted ≡ (net.fetch later text).contacted)
          × (run.outcome ≡ (net.fetch later text).outcome))

  module _ (later : ℕ) where
    fetch_if-IsGuarded :
        (scope : NetworkScope) (text : String) (o : Result String (Url × String))
        → IsListed scope text
        → (is_ok o ≡ true → IsSafe scope.allow_private_ranges text)
        → IsGuarded later (some scope) text (fetch_if net now later text o)
    fetch_if-IsGuarded scope text (throw e) listed safe = inl (refl, refl, refl)
    fetch_if-IsGuarded scope text (ok _) listed safe =
        inr (scope, refl, listed, safe refl, refl, refl, refl)

    fetch_listed-IsGuarded :
        (scope : NetworkScope) (text : String) (parsed : Option Url)
        → net.parse_url text ≡ parsed
        → IsGuarded later (some scope) text (fetch_listed net now later scope text parsed)
    fetch_listed-IsGuarded scope text none parsed = inl (refl, refl, refl)
    fetch_listed-IsGuarded scope text (some url) parsed =
        elim (Bool-cases (includes scope.allowed_hosts url.hostname)) [
          | inl listed ↦ rw listed (
              fetch_if-IsGuarded scope text _ (url, parsed, listed)
                (assert_url_allowed-IsSafe scope.allow_private_ranges text))
          | inr unlisted ↦ rw unlisted (inl (refl, refl, refl))
        ]

    -- A call of the network capability either requests nothing, contacts nothing and fails; or the tool has a
    -- scope that lists the host, the URL is a web address whose host resolved, when it was checked, to no
    -- blocked address unless the scope allows private ranges, and this URL alone is requested. The addresses
    -- that are then contacted are those that `fetch` contacts on its own, by its later resolution.
    pub net_fetch-IsGuarded :
        (scope : Option NetworkScope) (text : String)
        → IsGuarded later scope text (net_fetch net now later scope text)
    unfolding net_fetch
    net_fetch-IsGuarded none text = inl (refl, refl, refl)
    net_fetch-IsGuarded (some scope) text =
        fetch_listed-IsGuarded scope text (net.parse_url text) refl
