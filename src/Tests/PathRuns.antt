-- ===== src/Tests/PathRuns.antt =====
-- Paths of a configuration with one target, one next hop and one relay behind it.
use doh_auth_proxy.Prelude.{
  ◌≡◌, ◌≢◌, refl, ◌↔◌, true, false, Option, none, some, List, [], ◌∷◌, Memᴰ, ok, err, url_error,
  All, arith, any, ◌==◌,
}
use doh_auth_proxy.Text.{Text, codes}
use doh_auth_proxy.Globals.{ProxyConfig, NextHopRelayConfig, SubseqRelayConfig}
use doh_auth_proxy.Url.{none_left}
use doh_auth_proxy.Path.{standard, oblivious, DohRelay, DohPath, is_looped, get_path, as_url}
use doh_auth_proxy.Path.Build.{new, new_path, target_of, relay_of}
use doh_auth_proxy.Path.Loops.{Distinct, authorities, is_looped-eq-false_iff, Listed}
use doh_auth_proxy.Path.Choose.{IsChoice, get_path-IsChoice}
use doh_auth_proxy.Path.Complete.{IsConfigured}
use doh_auth_proxy.Path.Laws.{Listed-new_iff, Listed-new_ignores_max}
use doh_auth_proxy.Path.Urls.{as_url-new, as_url-new_standard, url_through}
use doh_auth_proxy.Tests.Toy.{ToyUrl, toy_url, toy_permutations}

abbrev pub at_host : Text → ToyUrl
at_host a = record { scheme = codes "https"; authority = a; path = codes "/q"; pairs = [] }

abbrev nexthop : NextHopRelayConfig toy_url
nexthop = record { odoh_relay_urls = at_host (codes "b:1") ∷ []; odoh_relay_randomization = true }

abbrev pub subseq : SubseqRelayConfig toy_url
subseq = record { mid_relay_urls = at_host (codes "c") ∷ []; max_mid_relays = 1 }

abbrev pub config_with : Option (NextHopRelayConfig toy_url) → ProxyConfig toy_url
config_with hop = record {
  listen_addresses = [];
  max_connections = 128;
  max_cache_size = 16;
  bootstrap_dns = record { ips = []; port = 53 };
  endpoint_resolution_period_sec = 3600;
  healthcheck_period_sec = 600;
  udp_buffer_size = 2048;
  udp_channel_capacity = 1024;
  udp_timeout_sec = 10;
  tcp_listen_backlog = 1024;
  http_timeout_sec = 10;
  target_config = record {
    use_get = false;
    doh_target_urls = at_host (codes "a") ∷ [];
    target_randomization = true;
  };
  nexthop_relay_config = hop;
  subseq_relay_config = some subseq;
  authentication_config = none;
  query_manipulation_config = none;
}

abbrev config : ProxyConfig toy_url
config = config_with (some nexthop)

-- The path through the next hop alone.
abbrev short : DohPath
unfolding new_path target_of relay_of
short =
    new_path oblivious (target_of toy_url (at_host (codes "a")))
      (relay_of toy_url true (at_host (codes "b:1")) ∷ [])

is_looped-eq-false_iff_example : (is_looped short ≡ false) ↔ Distinct (authorities short)
is_looped-eq-false_iff_example = is_looped-eq-false_iff short

Listed-new_iff_example :
    Listed short (new toy_url toy_permutations config).paths
    ↔ (IsConfigured toy_url toy_permutations config nexthop short × Distinct (authorities short))
Listed-new_iff_example = Listed-new_iff toy_url toy_permutations config nexthop refl short

Listed-new_ignores_max_example :
    Listed short (new toy_url toy_permutations config).paths
    ↔ Listed short
        (new toy_url toy_permutations (record config {
          subseq_relay_config = some (record subseq { max_mid_relays = 0 });
        })).paths
Listed-new_ignores_max_example =
    Listed-new_ignores_max toy_url toy_permutations config nexthop subseq 0 short refl refl

get_path-IsChoice_example :
    (r : Option DohPath) × (get_path (λ i n. 0) (new toy_url toy_permutations config) ≡ ok r)
    × IsChoice (new toy_url toy_permutations config).paths r
get_path-IsChoice_example =
    get_path-IsChoice (λ i n. 0) (λ i n h. h) (new toy_url toy_permutations config)

short-Listed : Listed short (new toy_url toy_permutations config).paths
unfolding is_looped new_path short
short-Listed = (Listed-new_iff toy_url toy_permutations config nexthop refl short).1 (
  record {
    target_url = at_host (codes "a");
    has_target = Memᴰ.head refl;
    hop_url = at_host (codes "b:1");
    has_hop = Memᴰ.head refl;
    rest = [];
    may_follow = (0, none_left);
    made = refl;
  },
  (is_looped-eq-false_iff short).0 refl,
)

as_url-new_example :
    (hop : DohRelay) × (rest : List DohRelay) × (short.relays ≡ hop ∷ rest)
    × (as_url toy_url short ≡ url_through toy_url short.target hop rest)
as_url-new_example = as_url-new toy_url toy_permutations config nexthop short refl short-Listed

-- A path to the target without relays.
abbrev direct : DohPath
unfolding new_path target_of
direct = new_path standard (target_of toy_url (at_host (codes "a"))) []

abbrev plain_config : ProxyConfig toy_url
plain_config = config_with none

direct-Listed : Listed direct (new toy_url toy_permutations plain_config).paths
unfolding new
direct-Listed = (_, _, Memᴰ.head refl, Memᴰ.head refl, Memᴰ.head refl)

any_colon : (s : Text) → All (λ c. c ≢ b':') s → any (λ c. c == b':') s ≡ false
any_colon [] h = refl
any_colon (c ∷ s) (n, h) = ground (arith, any_colon s h)

no_base : (s : Text) → All (λ c. c ≢ b':') s → toy_url.parse s ≡ none
no_base s h = rw (any_colon s h) refl

as_url-new_standard_example : as_url toy_url direct ≡ err url_error
unfolding direct
as_url-new_standard_example =
    as_url-new_standard toy_url toy_permutations plain_config direct no_base refl direct-Listed
      ((λ e. omega arith), tt)
