-- ===== src/Legacy/Context.antt =====
-- legacy/src/context.rs: what the parts of the old proxy share. Writing to a part of it is a new
-- context; the handle of the runtime and the counter are left out.
use doh_auth_proxy.Prelude.{
  arith, get_elem?-lt, ℕ, ◌%◌, ◌<◌, ◌≡◌, refl, ap, subst, Bool, true, false, Option, none, some,
  List, [], ◌∷◌, map, Memᴰ, Outcome, ok, err, panic, other, ok_or, get_elem?, length,
}
use doh_auth_proxy.Text.{Text}
use doh_auth_proxy.Url.{UrlLib}
use doh_auth_proxy.Globals.{SocketAddr}
use doh_auth_proxy.Manipulation.Libs.{CedarLib}
use doh_auth_proxy.Client.Http.{DohMethod, HttpLib, OdohLib}
use doh_auth_proxy.Legacy.Libs.{JsonLib, JwtLib, UrlText, Net}
use doh_auth_proxy.Legacy.Plugins.{QueryPlugin}
use doh_auth_proxy.Legacy.Credential.{Credential, refresh}
use doh_auth_proxy.Legacy.Client
use doh_auth_proxy.Legacy.Client.{DohClient, join_all, join_all-map}

module _ {O : OdohLib} {Conn : Type 0} where
  nth_client : List (DohClient O Conn) → ℕ → Outcome (DohClient O Conn)
  nth_client clients target_idx = ok_or other (get_elem? clients target_idx)

  chosen : Bool → ℕ → List (DohClient O Conn) → Outcome (DohClient O Conn)
  unfolding nth_client
  chosen true draw [] = panic
  chosen true draw (c ∷ clients) = nth_client (c ∷ clients) (draw % length (c ∷ clients))
  chosen false draw clients = nth_client clients 0

module _ {O : OdohLib} {Conn : Type 0} where
  nth_client_lem :
      (clients : List (DohClient O Conn)) (i : ℕ)
      → i < length clients
      → (c : DohClient O Conn) × (nth_client clients i ≡ ok c) × Memᴰ c clients
  unfolding nth_client
  nth_client_lem clients i h = let (c, e, m) = get_elem?-lt clients i h in (c, rw e refl, m)

  chosen_lem :
      (randomized : Bool) (draw : ℕ) (clients : List (DohClient O Conn))
      → 0 < length clients
      → (c : DohClient O Conn) × (chosen randomized draw clients ≡ ok c) × Memᴰ c clients
  unfolding chosen
  chosen_lem r draw [] h = absurd (omega arith)
  chosen_lem true draw (c ∷ clients) h =
      nth_client_lem (c ∷ clients) (draw % length (c ∷ clients)) (omega arith)
  chosen_lem false draw (c ∷ clients) h = nth_client_lem (c ∷ clients) 0 h

pub record Settings (C : CedarLib) : Type 0 where
  pub listen_addresses : List SocketAddr
  pub udp_buffer_size : ℕ
  pub udp_channel_capacity : ℕ
  pub timeout_sec : ℕ
  pub doh_target_urls : List Text
  pub target_randomization : Bool
  pub doh_method : DohMethod
  pub odoh_relay_urls : Option (List Text)
  pub odoh_relay_randomization : Bool
  pub mid_relay_urls : Option (List Text)
  pub max_mid_relays : ℕ
  pub bootstrap_dns : SocketAddr
  pub rebootstrap_period_sec : ℕ
  pub max_connections : ℕ
  pub query_plugins : Option (List (QueryPlugin C))
  pub min_ttl : ℕ

pub record Context (C : CedarLib) (O : OdohLib) (Conn Cached : Type 0) : Type 0 where
  pub settings : Settings C
  pub doh_clients : Option (List (DohClient O Conn))
  pub credential : Option Credential
  pub cache : Cached

module _ {C : CedarLib} {O : OdohLib} {Conn Cached : Type 0} where
  -- The token for the headers of the clients.
  unfoldable pub current_token : Context C O Conn Cached → Option Text
  current_token context = elim context.credential [ none ↦ none | some c ↦ c.id_token ]

  -- `draw` is the random number; the remainder of a division by zero panics.
  unfoldable pub get_random_client : ℕ → Context C O Conn Cached → Outcome (DohClient O Conn)
  unfolding chosen
  get_random_client draw context = elim context.doh_clients [
    | none ↦ err other
    | some clients ↦ chosen context.settings.target_randomization draw clients
  ]

module _ (U : UrlLib) (X : UrlText U) (W : HttpLib) {C : CedarLib} {O : OdohLib}
    {Conn Cached : Type 0} (N : Net W Conn) where
  -- The clients of all targets.
  unfoldable pub built_clients : Context C O Conn Cached → Outcome (List (DohClient O Conn))
  built_clients context = join_all (
      map
        (λ target.
          Client.new U X W O N context.settings.doh_method target context.settings.odoh_relay_urls
            (current_token context))
        context.settings.doh_target_urls)

  unfoldable pub replaced :
      Context C O Conn Cached
      → Outcome (List (DohClient O Conn))
      → Context C O Conn Cached × Outcome (Unit {0})
  replaced context (ok doh_clients) = (record context { doh_clients = some doh_clients }, ok tt)
  replaced context (err e) = (context, err e)
  replaced context panic = (context, panic)

  unfoldable pub update_doh_client :
      Context C O Conn Cached → Context C O Conn Cached × Outcome (Unit {0})
  unfolding built_clients replaced
  update_doh_client context = replaced context (built_clients context)

module _ (J : JsonLib) (T : JwtLib) (W : HttpLib) {C : CedarLib} {O : OdohLib}
    {Conn Cached : Type 0} (N : Net W Conn) (now : ℕ) where
  -- The credential that an operation gives, where it succeeds.
  unfoldable pub stored :
      Context C O Conn Cached → Outcome Credential → Context C O Conn Cached × Outcome (Unit {0})
  stored context (ok credential) = (record context { credential = some credential }, ok tt)
  stored context (err e) = (context, err e)
  stored context panic = (context, panic)

  unfoldable pub updated_credential :
      Context C O Conn Cached → Option Credential → Context C O Conn Cached × Outcome (Unit {0})
  unfolding stored
  updated_credential context none = (context, err other)
  updated_credential context (some c) = stored context (refresh J T W N now c)

  unfoldable pub update_credential :
      Context C O Conn Cached → Context C O Conn Cached × Outcome (Unit {0})
  unfolding updated_credential
  update_credential context = updated_credential context context.credential

module _ (U : UrlLib) (X : UrlText U) (W : HttpLib) {C : CedarLib} {O : OdohLib}
    {Conn Cached : Type 0} (N : Net W Conn) where
  replaced-eq-ok :
      (context context' : Context C O Conn Cached) (built : Outcome (List (DohClient O Conn)))
      → replaced U X W N context built ≡ (context', ok tt)
      → (clients : List (DohClient O Conn)) × (built ≡ ok clients)
        × (record context { doh_clients = some clients } ≡ context')
  unfolding replaced
  replaced-eq-ok context context' (ok clients) e =
      (clients, refl, ap (λ (r : Context C O Conn Cached × Outcome (Unit {0})). r.0) e)
  replaced-eq-ok context context' (err x) e =
      cc (ap (λ (r : Context C O Conn Cached × Outcome (Unit {0})). r.1) e)
  replaced-eq-ok context context' panic e =
      cc (ap (λ (r : Context C O Conn Cached × Outcome (Unit {0})). r.1) e)

  -- After an update that succeeds, and with at least one target, every draw gives a client, and that
  -- client is one built, with the token that the credential has, for a configured target.
  pub get_random_client-update :
      (context context' : Context C O Conn Cached) (draw : ℕ)
      → update_doh_client U X W N context ≡ (context', ok tt)
      → 0 < length context.settings.doh_target_urls
      → (client : DohClient O Conn) × (target : Text) × (get_random_client draw context'
          ≡ ok client)
        × Memᴰ target context.settings.doh_target_urls
        × (Client.new U X W O N context.settings.doh_method target context.settings.odoh_relay_urls
              (current_token context)
            ≡ ok client)
  unfolding update_doh_client get_random_client
  get_random_client-update context context' draw e some_target =
      let (clients, built, same) =
        replaced-eq-ok context context' (built_clients U X W N context) e in
      let (len, origin) =
        join_all-map
          (λ target.
            Client.new U X W O N context.settings.doh_method target context.settings.odoh_relay_urls
              (current_token context))
          context.settings.doh_target_urls clients built in
      let (client, chose, m) =
        chosen_lem context.settings.target_randomization draw clients (omega arith) in
      let (target, among, made) = origin client m in
      (
        client,
        target,
        subst (λ (c : Context C O Conn Cached). get_random_client draw c ≡ ok client) same chose,
        among,
        made,
      )
