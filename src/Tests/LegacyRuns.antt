-- ===== src/Tests/LegacyRuns.antt =====
-- The old proxy with one target behind one relay, a token server that gives one token, and a relay
-- that refuses every query.
use doh_auth_proxy.Prelude.{
  ℕ, ◌≡◌, refl, true, Option, none, some, List, [], ◌∷◌, ◌++◌, ltb, map, ok, err, other, arith,
  if◌then◌else◌,
}
use doh_auth_proxy.Text.{Text, codes, text_eq}
use doh_auth_proxy.Globals.{v4, SocketAddr}
use doh_auth_proxy.Cache.{Cache}
use doh_auth_proxy.Client.Http.{DohMethod, get_method, post_method}
use doh_auth_proxy.Legacy.Libs.{JsonLib, JwtLib, UrlText, Net, Response}
use doh_auth_proxy.Legacy.Credential
use doh_auth_proxy.Legacy.Credential.{Credential, login, login_request}
use doh_auth_proxy.Legacy.Context.{Context, Settings}
use doh_auth_proxy.Legacy.Proxy.Service.{
  TurnInput, Event, token_event, refresh_event, services, entrypoint,
}
use doh_auth_proxy.Legacy.Proxy.{exits}
use doh_auth_proxy.Legacy.Proxy.Trust.{IsTrustedTurn}
use doh_auth_proxy.Legacy.Proxy.ServiceLaws.{IsTimeOf, entrypoint-IsTrusted}
use doh_auth_proxy.Legacy.Proxy.Failures.{services_fail}
use doh_auth_proxy.Tests.Toy.{toy_url}
use doh_auth_proxy.Tests.Message.{toy_hickory}
use doh_auth_proxy.Tests.Libs.{toy_cedar_lib}
use doh_auth_proxy.Tests.CacheRuns.{entries_map, two}
use doh_auth_proxy.Tests.ClientRuns.{web, odoh}

-- The parts of the two answers that the code reads.
data ToyValue : Type 0 where
  token_answer token_object id_text refresh_text keys_answer key_array key_object : ToyValue

abbrev toy_get : Text → ToyValue → Option ToyValue
toy_get k token_answer = if text_eq k (codes "token") then some token_object else none
toy_get k token_object = if text_eq k (codes "id") then some id_text else some refresh_text
toy_get k keys_answer = if text_eq k (codes "keys") then some key_array else none
toy_get k _ = none

abbrev toy_as_str : ToyValue → Option Text
toy_as_str id_text = some (codes "id")
toy_as_str refresh_text = some (codes "refresh")
toy_as_str _ = none

abbrev toy_as_array : ToyValue → Option (List ToyValue)
toy_as_array key_array = some (key_object ∷ [])
toy_as_array _ = none

abbrev json : JsonLib
json = record {
  Value = ToyValue;
  from_str = λ s. if text_eq s (codes "keys") then some keys_answer else some token_answer;
  to_string = λ v. some [];
  get = toy_get;
  remove = λ k v. v;
  as_str = toy_as_str;
  as_array = toy_as_array;
  as_object = λ v. some v;
}

abbrev jwt : JwtLib
jwt = record {
  Metadata = Unit {0};
  decode_metadata = λ s. some tt;
  key_id = λ m. none;
  algorithm = λ m. codes "ES256";
  PublicKey = Unit {0};
  from_jwk_str = λ s. some tt;
  pem_of = λ k. codes "key";
  parse_pem = λ s. some tt;
  Es256Key = Unit {0};
  es256_of = λ k. some tt;
  Claims = ℕ;
  expires_at = λ n. some n;
  verify_token = λ k now token audience issuer. if ltb now 1000 then some 1000 else none;
}

abbrev pub url_text : UrlText toy_url
url_text = record {
  host_str = λ u. some u.authority;
  parse_with_params = λ base ps.
      some (record { scheme = codes "https"; authority = base; path = codes "/"; pairs = ps });
  decode = λ s. some s;
  in_hash_order = λ ps. ps;
}

-- Keys for a GET, and 401 with a token for a POST.
abbrev respond : DohMethod → Response
respond get_method = record {
  status = 200;
  content_length = some 1;
  text = some (codes "keys");
  bytes = some (1 ∷ []);
}
respond post_method = record {
  status = 401;
  content_length = some 1;
  text = some (codes "token");
  bytes = some [];
}

abbrev pub refusing : Net web Text
refusing = record {
  connect = λ endpoint headers resolve. ok endpoint;
  send = λ client request. some (respond request.method);
}

abbrev offline : Net web Text
offline = record {
  connect = λ endpoint headers resolve. ok endpoint;
  send = λ client request. none;
}

-- A server where logging in works.
abbrev working : Net web Text
working = record {
  connect = λ endpoint headers resolve. ok endpoint;
  send = λ client request. some (record (respond request.method) { status = 200 });
}

abbrev at : Net web Text → TurnInput web Text
at net = record {
  net = net;
  now = 7;
  unix_time = 7;
  shuffle = λ xs. xs;
  gen_range = λ low high. low;
  draw = 0;
}

abbrev anywhere : SocketAddr
anywhere = record { ip = v4 1; port = 53 }

abbrev pub settings : Settings toy_cedar_lib
settings = record {
  listen_addresses = anywhere ∷ [];
  udp_buffer_size = 2048;
  udp_channel_capacity = 1024;
  timeout_sec = 10;
  doh_target_urls = codes "t:1" ∷ [];
  target_randomization = true;
  doh_method = post_method;
  odoh_relay_urls = some (codes "r:1" ∷ []);
  odoh_relay_randomization = true;
  mid_relay_urls = none;
  max_mid_relays = 0;
  bootstrap_dns = anywhere;
  rebootstrap_period_sec = 3600;
  max_connections = 128;
  query_plugins = none;
  min_ttl = 10;
}

abbrev account : Credential
account = Credential.new (codes "user") (codes "key") (codes "client") (codes "https://api")

abbrev pub context : Context toy_cedar_lib odoh Text (Cache toy_hickory entries_map)
context = record { settings = settings; doh_clients = none; credential = some account; cache = two }

abbrev printed : ℕ → Option Text
printed a = some (codes "8.8.8.8")

abbrev events : List (Event web Text)
events = token_event (at working) ∷ refresh_event (at offline) ∷ token_event (at refusing) ∷ []

entrypoint-IsTrusted_example :
    IsTrustedTurn json jwt
      (IsTimeOf toy_hickory toy_url url_text web toy_cedar_lib odoh entries_map printed
        (1 ∷ [])
        json
        jwt
        (at working)
        events)
      (entrypoint toy_hickory toy_url url_text web toy_cedar_lib odoh entries_map printed
        (1 ∷ [])
        json
        jwt
        (at working)
        context
        events)
entrypoint-IsTrusted_example =
    entrypoint-IsTrusted toy_hickory toy_url url_text web toy_cedar_lib odoh entries_map printed
      (1 ∷ []) json jwt (at working) context (codes "user") (codes "key") (codes "client")
      (codes "https://api") events refl

fails : login json jwt web offline 7 account ≡ err other
unfolding login
fails = refl

services_fail_example :
    services toy_hickory toy_url url_text web toy_cedar_lib odoh entries_map printed
      (1 ∷ [])
      json
      jwt
      4
      context
      (map token_event (at offline ∷ at offline ∷ []) ++ refresh_event (at working) ∷ [])
    ≡ exits
services_fail_example =
    services_fail toy_hickory toy_url url_text web toy_cedar_lib odoh entries_map printed (1 ∷ [])
      json jwt context account refl (at offline ∷ at offline ∷ []) (refresh_event (at working) ∷ [])
      4 ((other, fails), ((other, fails), tt)) (omega arith) (omega arith)

-- A login at the server where that works.
logged_in :
    login json jwt web working 7 account
    ≡ ok (record account {
      id_token = some (codes "id");
      refresh_token = some (codes "refresh");
      validation_key = some (codes "key");
    })
unfolding login Credential.new
logged_in = refl
