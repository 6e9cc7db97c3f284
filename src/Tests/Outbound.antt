-- ===== src/Tests/Outbound.antt =====
-- src/net/ssrfGuard.ts and src/ai/tools/scopes/network.scope.ts at small inputs.
use capybara_ai.Prelude.{
  ℕ, String, ◌&&◌, leb, true, false, some, [], ◌∷◌, ◌≡◌, refl, if◌then◌else◌, ◌==◌, string_eq,
  starts_with,
}
use capybara_ai.Prelude.Effect.{ok, is_ok}
use capybara_ai.Tools.{NetworkScope}
use capybara_ai.Net.{Network, refused, is_blocked_address, assert_url_allowed, net_fetch}
use capybara_ai.Net.Egress.{IsGuarded, no_hosts, net_fetch-IsGuarded}

-- A network of three hosts, of which one moves to a private address at the moment 2; what has a colon
-- first is an address of family 6.
abbrev address_of : ℕ → String → String
address_of now host = if host == "moves" && leb 2 now then "10.0.0.8" else "13.14.15.16"

abbrev network : Network
network = record {
  parse_url = λ text. some (record { protocol = "https:"; hostname = text });
  is_ip = λ host. if starts_with host "1" then 4 else if starts_with host ":" then 6 else 0;
  lookup = λ now host. ok (address_of now host);
  lookup_all = λ now host.
      if host == "inner"
      then ok ("93.184.216.34" ∷ "10.0.0.7" ∷ [])
      else ok (address_of now host ∷ []);
  to_lower_case = λ s. s;
  fetch = λ now text. record { outcome = ok "page"; contacted = address_of now text ∷ [] };
}

abbrev scope : NetworkScope
scope = record { allowed_hosts = "api" ∷ "inner" ∷ "moves" ∷ []; allow_private_ranges = false }

api_is_allowed : is_ok (assert_url_allowed network 1 "api" (no_hosts false)) ≡ true
unfolding assert_url_allowed
api_is_allowed = refl

api_answers :
    net_fetch network 1 2 (some scope) "api"
    ≡ record { outcome = ok "page"; requested = "api" ∷ []; contacted = "13.14.15.16" ∷ [] }
unfolding net_fetch
api_answers = refl

net_fetch-IsGuarded_example :
    IsGuarded network 1 2 (some scope) "api" (net_fetch network 1 2 (some scope) "api")
net_fetch-IsGuarded_example = net_fetch-IsGuarded network 1 2 (some scope) "api"

-- A host that moves between the check and the request is contacted at its private address.
rebinding_passes : (net_fetch network 1 2 (some scope) "moves").contacted ≡ "10.0.0.8" ∷ []
unfolding net_fetch
rebinding_passes = refl

-- One private address among those of a listed host is enough to refuse it.
inner_is_refused :
    net_fetch network 1 2 (some scope) "inner"
    ≡ refused "target resolves to a blocked address: 10.0.0.7"
unfolding net_fetch
inner_is_refused = refl

metadata_is_blocked : is_blocked_address network "169.254.169.254" ≡ true
unfolding is_blocked_address
metadata_is_blocked = refl

mapped_is_blocked : is_blocked_address network "::ffff:127.0.0.1" ≡ true
unfolding is_blocked_address
mapped_is_blocked = refl

-- The same address in hexadecimal is not recognised.
hexadecimal_is_let_through : is_blocked_address network "::ffff:7f00:1" ≡ false
unfolding is_blocked_address
hexadecimal_is_let_through = refl
