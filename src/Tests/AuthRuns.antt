-- ===== src/Tests/AuthRuns.antt =====
-- A login that succeeds at the second attempt, and resolvers that fail or answer.
use doh_auth_proxy.Prelude.{
  ℕ, ◌<◌, ◌≡◌, ◌≢◌, panic, ◌↔◌, ◌⊎◌, refl, false, not, none, some, List, [], ◌∷◌, map, Outcome, ok,
  err, ◌==◌, too_many_fails_to_resolve_ips, http_client_error,
}
use doh_auth_proxy.Text.{Text, codes}
use doh_auth_proxy.Auth.{Attempt, pos, auth_turn}
use doh_auth_proxy.Auth.Laws.{FirstSuccess, EndsWell, GivesUp, succeeds, auth_turn_lem}
use doh_auth_proxy.HttpClient.{
  ClientBuilderLib, HttpClient, Round, resolve_ips, ResolveIpResponse, endpoint_ip_service,
}
use doh_auth_proxy.HttpClient.Service.{FourInRow, round_fails, HasNoPanic, endpoint_ip_service_iff}
use doh_auth_proxy.Tests.Toy.{ToyUrl, toy_url}

-- The token expires in a minute, it cannot be refreshed, and the first login fails.
abbrev flaky : ℕ → Attempt
flaky i = record { expires_in = some (pos 60); refreshed = false; logged_in = not (i == 0) }

auth_turn_lem_example :
    ((i : ℕ) × FirstSuccess 5 i flaky × EndsWell i (auth_turn flaky))
    ⊎ (((j : ℕ) → j < 5 → succeeds (flaky j) ≡ false) × GivesUp (auth_turn flaky))
auth_turn_lem_example = auth_turn_lem flaky

-- A builder is the names it resolves, and so is its client.
abbrev pub builder_lib : ClientBuilderLib
builder_lib = record {
  Builder = List Text;
  Client = List Text;
  HeaderMap = List (Text × Text);
  builder = [];
  user_agent = λ b s. b;
  timeout = λ b n. b;
  trust_dns = λ b on. b;
  resolve_to_addrs = λ b name addrs. name ∷ b;
  default_headers = λ b hs. b;
  build = λ b. some b;
}

abbrev http_client : HttpClient builder_lib toy_url
http_client = record {
  inner = [];
  endpoints =
      record { scheme = codes "https"; authority = codes "a:1"; path = codes "/"; pairs = [] } ∷ [];
  default_headers = none;
  timeout_sec = 10;
  endpoint_resolution_period_sec = 60;
}

abbrev fails : ToyUrl → Outcome ResolveIpResponse
fails u = err http_client_error

abbrev pub finds : ToyUrl → Outcome ResolveIpResponse
finds u = ok (record { hostname = u.authority; addresses = [] })

-- The fallback answers once, then both resolvers fail four times.
abbrev rounds : List (Round builder_lib toy_url)
rounds =
    record { primary = fails; fallback = finds }
    ∷ record { primary = fails; fallback = fails }
    ∷ record { primary = fails; fallback = fails }
    ∷ record { primary = fails; fallback = fails }
    ∷ record { primary = fails; fallback = fails }
    ∷ []

fails_well : resolve_ips http_client.endpoints fails ≢ panic
unfolding resolve_ips
fails_well e = cc

finds_well : resolve_ips http_client.endpoints finds ≢ panic
unfolding resolve_ips
finds_well e = cc

no_panic : HasNoPanic builder_lib toy_url (codes "1") http_client.endpoints rounds
no_panic = (
  (fails_well, finds_well),
  (
    (fails_well, fails_well),
    ((fails_well, fails_well), ((fails_well, fails_well), ((fails_well, fails_well), tt))),
  ),
)

endpoint_ip_service_iff_example :
    ((endpoint_ip_service builder_lib toy_url (codes "1") rounds http_client 0
        ≡ err too_many_fails_to_resolve_ips)
      ↔ FourInRow (map (round_fails builder_lib toy_url (codes "1") http_client.endpoints) rounds))
    × ((endpoint_ip_service builder_lib toy_url (codes "1") rounds http_client 0
          ≡ err too_many_fails_to_resolve_ips)
        ⊎ ((s : HttpClient builder_lib toy_url × ℕ) × (endpoint_ip_service builder_lib toy_url
                (codes "1")
                rounds
                http_client
                0
              ≡ ok s)))
endpoint_ip_service_iff_example =
    endpoint_ip_service_iff builder_lib toy_url (codes "1") (λ b. (b, refl)) rounds http_client
      no_panic
