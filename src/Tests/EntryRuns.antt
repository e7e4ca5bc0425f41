-- ===== src/Tests/EntryRuns.antt =====
-- A proxy that starts with one relay.
use doh_auth_proxy.Prelude.{◌≡◌, refl, none, [], ◌∷◌, Memᴰ, false, is_empty, Outcome, ok}
use doh_auth_proxy.Text.{codes}
use doh_auth_proxy.Globals.{AuthenticationConfig}
use doh_auth_proxy.Entry.{TokenClient, Services, entrypoint, entrypoint_lem}
use doh_auth_proxy.Tests.Toy.{ToyUrl, toy_url, toy_permutations}
use doh_auth_proxy.Tests.Message.{toy_hickory}
use doh_auth_proxy.Tests.Libs.{toy_cedar_lib, toy_regex}
use doh_auth_proxy.Tests.CacheRuns.{entries_map}
use doh_auth_proxy.Tests.HealthRuns.{any_addr}
use doh_auth_proxy.Tests.PathRuns.{at_host}
use doh_auth_proxy.Tests.ClientRuns.{web, odoh, server}
use doh_auth_proxy.Tests.AuthRuns.{builder_lib, finds}
use doh_auth_proxy.Tests.LoadRuns.{relayed, relayed_client, relayed_state, relayed_path}

abbrev no_token : AuthenticationConfig toy_url → Outcome TokenClient
no_token a = ok (record { login = ok tt; token = ok [] })

abbrev running :
    Services builder_lib toy_url toy_permutations toy_hickory toy_cedar_lib web odoh toy_regex
      any_addr server entries_map
running = record {
  http_client = record {
    inner = codes "b:1" ∷ [];
    endpoints = at_host (codes "b:1") ∷ [];
    default_headers = none;
    timeout_sec = 10;
    endpoint_resolution_period_sec = 3600;
  };
  doh_client = relayed_client;
  state = relayed_state;
  listeners = relayed.listen_addresses;
}

starts :
    entrypoint builder_lib toy_url toy_permutations toy_hickory toy_cedar_lib web odoh toy_regex
      any_addr server entries_map
      (codes "1")
      (ok finds)
      no_token
      relayed
    ≡ ok running
unfolding entrypoint doh_auth_proxy.HttpClient.new_client
    doh_auth_proxy.HttpClient.endpoint_candidates doh_auth_proxy.Client.New.new
    doh_auth_proxy.Path.targets doh_auth_proxy.Path.Build.new doh_auth_proxy.Path.prune
    doh_auth_proxy.Path.is_looped doh_auth_proxy.Client.Odoh.new_store
    doh_auth_proxy.Path.scheme_or_https doh_auth_proxy.Client.Query.base_headers
    doh_auth_proxy.Client.Query.choose_type doh_auth_proxy.Client.Query.choose_method
    doh_auth_proxy.Cache.new
starts = refl

entrypoint_lem_example :
    (url : ToyUrl) × Memᴰ url (at_host (codes "b:1") ∷ [])
    × (url.authority ≡ codes "b:1")
    × (is_empty running.listeners ≡ false)
entrypoint_lem_example =
    entrypoint_lem builder_lib toy_url toy_permutations toy_hickory toy_cedar_lib web odoh toy_regex
      any_addr server entries_map (codes "1") (ok finds) no_token relayed running relayed_path
      starts (_, _, Memᴰ.head refl, Memᴰ.head refl, Memᴰ.head refl)
