-- ===== src/Tests/HealthRuns.antt =====
-- A round of the health check, an address that the client resolves, and the key of two questions.
use mathlib.Core.List.{Permᴰ}
use doh_auth_proxy.Prelude.{ℕ, ◌≡◌, refl, none, some, List, [], ◌∷◌, ok, All, true, ℕ_discrete}
use doh_auth_proxy.Text.{Text, codes, to_ascii_lowercase}
use doh_auth_proxy.Globals.{AddrParser, v4}
use doh_auth_proxy.Dns.{request_try_from, encode, is_query, is_response}
use doh_auth_proxy.Dns.Laws.{SameQuestion, request_try_from-Permᴰ}
use doh_auth_proxy.Dns.BuildQuery.{build_query_a}
use doh_auth_proxy.Path.{DohPath, make_healthy, as_url, get_path, prune}
use doh_auth_proxy.Cache.{get, put}
use doh_auth_proxy.Client.Query.{make_doh_query, make_doh_query_inner}
use doh_auth_proxy.Client.Exchange.{Run}
use doh_auth_proxy.Client.Health.{healthcheck}
use doh_auth_proxy.Client.HealthRound.{healthcheck_round, IsChecked, healthcheck_round_lem}
use doh_auth_proxy.Client.Resolve.{
  from_response, resolve_host_ips, Resolution, resolve_host_ips_lem,
}
use doh_auth_proxy.HttpClient.{ResolveIpResponse}
use doh_auth_proxy.HttpClient.Bootstrap.{socket_addrs}
use doh_auth_proxy.Tests.Toy.{ToyUrl, toy_url}
use doh_auth_proxy.Tests.Message.{ToyMessage, ToyQuery, toy_hickory, toy_query, toy_builder}
use doh_auth_proxy.Tests.Libs.{toy_cedar_lib}
use doh_auth_proxy.Tests.CacheRuns.{entries_map, two}
use doh_auth_proxy.Tests.ClientRuns.{web, odoh, path, client, server, offline, start}

abbrev question : Text → ℕ → ToyQuery
question name qtype = record { name = name; qtype = qtype; class = 1 }

abbrev asking : List ToyQuery → ToyMessage
asking qs = record (toy_query 1 []) { queries = qs }

same_case :
    SameQuestion toy_hickory
      (λ r r' e. e)
      (λ r r' e. e)
      (question (codes "A.") 1)
      (question (codes "a.") 1)
unfolding to_ascii_lowercase
same_case = record { same_name = refl; same_type = refl; same_class = refl }

same_other :
    SameQuestion toy_hickory
      (λ r r' e. e)
      (λ r r' e. e)
      (question (codes "b.") 28)
      (question (codes "B.") 28)
unfolding to_ascii_lowercase
same_other = record { same_name = refl; same_type = refl; same_class = refl }

request_try_from-Permᴰ_example :
    request_try_from toy_hickory (asking (question (codes "b.") 28 ∷ question (codes "A.") 1 ∷ []))
    ≡ request_try_from toy_hickory
        (asking (question (codes "a.") 1 ∷ question (codes "B.") 28 ∷ []))
request_try_from-Permᴰ_example =
    request_try_from-Permᴰ toy_hickory (λ r r' e. e) (λ r r' e. e)
      (asking (question (codes "b.") 28 ∷ question (codes "A.") 1 ∷ []))
      (asking (question (codes "a.") 1 ∷ question (codes "B.") 28 ∷ []))
      (question (codes "A.") 1 ∷ question (codes "b.") 28 ∷ []) (Permᴰ.swap refl refl)
      (same_case, (same_other, tt))

abbrev printed : ℕ → Text
printed d = codes "8.8.8.8"

abbrev round_at : ℕ → Run toy_url web odoh (List (List (List DohPath)))
round_at now =
    (healthcheck_round toy_url toy_hickory printed toy_cedar_lib web odoh true true toy_builder
      server client (λ p. 3) entries_map now two offline).1

round_ends : (round_at 7).1 ≡ ok (((path ∷ []) ∷ []) ∷ [])
unfolding healthcheck_round healthcheck make_doh_query_inner as_url build_query_a encode is_response
    make_healthy ℕ_discrete
round_ends = refl

healthcheck_round_lem_example :
    All
      (All (
        All (
          IsChecked toy_url toy_hickory printed toy_cedar_lib web odoh true true toy_builder server
            client
            (λ p. 3))))
      (((path ∷ []) ∷ []) ∷ [])
healthcheck_round_lem_example =
    healthcheck_round_lem toy_url toy_hickory printed toy_cedar_lib web odoh true true toy_builder
      server client (λ p. 3) entries_map 7 two offline (((path ∷ []) ∷ []) ∷ []) round_ends

abbrev endpoint : ToyUrl
endpoint = record { scheme = codes "https"; authority = codes "a:1"; path = codes "/"; pairs = [] }

-- Every text is the address 9 with the port 443.
abbrev pub any_addr : AddrParser
any_addr = record {
  parse_v4 = λ s. some 9;
  parse_v6 = λ s. none;
  parse_ip = λ s. some (v4 9);
  parse_socket = λ s. some (record { ip = v4 9; port = 443 });
}

abbrev resolved : ResolveIpResponse
resolved = record { hostname = codes "a:1"; addresses = record { ip = v4 9; port = 443 } ∷ [] }

resolves :
    (resolve_host_ips toy_url toy_hickory toy_cedar_lib web odoh server entries_map toy_builder
      any_addr
      (λ d. some d)
      (λ a. codes "9")
      7
      8
      (λ i n. 0)
      client
      3
      start
      endpoint).1
    ≡ ok resolved
unfolding resolve_host_ips make_doh_query make_doh_query_inner as_url build_query_a encode
    is_response is_query request_try_from get put get_path socket_addrs prune from_response
    ℕ_discrete
resolves = refl

resolve_host_ips_lem_example :
    Resolution toy_url toy_hickory toy_cedar_lib web odoh server entries_map toy_builder any_addr
      (λ d. some d)
      (λ a. codes "9")
      7
      8
      (λ i n. 0)
      client
      start
      endpoint
      resolved
resolve_host_ips_lem_example =
    resolve_host_ips_lem toy_url toy_hickory toy_cedar_lib web odoh server entries_map toy_builder
      any_addr (λ d. some d) (λ a. codes "9") 7 8 (λ i n. 0) client 3 start endpoint resolved
      resolves
