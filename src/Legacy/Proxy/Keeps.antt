-- ===== src/Legacy/Proxy/Keeps.antt =====
-- New clients and the check of their health in legacy/src/proxy.rs leave the credential.
use doh_auth_proxy.Prelude.{
  ℕ, ◌≡◌, refl, subst, Bool, true, Option, none, some, List, [], ◌∷◌, Outcome, ok, err, panic,
}
use doh_auth_proxy.Text.{Text}
use doh_auth_proxy.Url.{UrlLib}
use doh_auth_proxy.Hickory.{Hickory}
use doh_auth_proxy.Dns.{Request}
use doh_auth_proxy.Cache.Linked.{LinkedHashMap}
use doh_auth_proxy.Cache.{CacheObject, Cache}
use doh_auth_proxy.Manipulation.Libs.{CedarLib}
use doh_auth_proxy.Client.Http.{HttpLib, OdohLib}
use doh_auth_proxy.Legacy.Libs.{UrlText, Net}
use doh_auth_proxy.Legacy.Credential.{Credential}
use doh_auth_proxy.Legacy.Context.{Context, update_doh_client}
use doh_auth_proxy.Legacy.Client.{DohClient}
use doh_auth_proxy.Legacy.Client.Health.{health_of}
use doh_auth_proxy.Legacy.Client.QueryLaws.{
  Keeps, update_doh_client-credential, make_doh_query-Keeps,
}
use doh_auth_proxy.Legacy.Proxy.{
  found_healthy, judged, health_check, and_healthy, then_check, check_all, checked_clients,
  clients_health_check, reported, after_update, update_client,
}

module _ (H : Hickory) (U : UrlLib) (X : UrlText U) (W : HttpLib) (C : CedarLib) (O : OdohLib)
    {Conn : Type 0} {dec : Discrete (Request H)} (L : LinkedHashMap (Request H) (CacheObject H) dec)
    (shuffle : List Text → List Text) (gen_range : ℕ → ℕ → ℕ) (draw now : ℕ)
    (a_to_string : H.RData → Option Text) (health_packet : List ℕ) (N : Net W Conn) where
  abbrev Sh : Type 0
  Sh = Context C O Conn (Cache H L)

  found_healthy-Keeps :
      (credential : Option Credential) (context : Sh) (r : Outcome (Unit {0}))
      → context.credential ≡ credential
      → Keeps credential (
          found_healthy H U X W C O L shuffle gen_range draw now a_to_string health_packet N context
            r)
  unfolding found_healthy
  found_healthy-Keeps credential context (ok _) h = h
  found_healthy-Keeps credential context (err e) h = h
  found_healthy-Keeps credential context panic h = h

  judged-Keeps :
      (credential : Option Credential) (r : Option (Sh × Outcome (List ℕ)))
      → Keeps credential r
      → Keeps credential
          (judged H U X W C O L shuffle gen_range draw now a_to_string health_packet N r)
  unfolding judged
  judged-Keeps credential none h = tt
  judged-Keeps credential (some (context, ok res)) h =
      found_healthy-Keeps credential context (health_of H a_to_string res) h
  judged-Keeps credential (some (context, err e)) h = h
  judged-Keeps credential (some (context, panic)) h = h

  and_healthy-Keeps :
      (credential : Option Credential) (healthy : Bool) (r : Option (Sh × Outcome Bool))
      → Keeps credential r
      → Keeps credential (
          and_healthy H U X W C O L shuffle gen_range draw now a_to_string health_packet N healthy
            r)
  unfolding and_healthy
  and_healthy-Keeps credential healthy none h = tt
  and_healthy-Keeps credential healthy (some (context, ok b)) h = h
  and_healthy-Keeps credential healthy (some (context, err e)) h = h
  and_healthy-Keeps credential healthy (some (context, panic)) h = h

  then_check-Keeps :
      (credential : Option Credential) (r : Option (Sh × Outcome Bool))
      (next : Sh → Option (Sh × Outcome Bool))
      → Keeps credential r
      → ((c : Sh) → c.credential ≡ credential → Keeps credential (next c))
      → Keeps credential
          (then_check H U X W C O L shuffle gen_range draw now a_to_string health_packet N r next)
  unfolding then_check
  then_check-Keeps credential none next h k = tt
  then_check-Keeps credential (some (context, ok healthy)) next h k =
      and_healthy-Keeps credential healthy (next context) (k context h)
  then_check-Keeps credential (some (context, err e)) next h k = h
  then_check-Keeps credential (some (context, panic)) next h k = h

  health_check-Keeps :
      (context : Sh) (client : DohClient O Conn)
      → Keeps context.credential (
          health_check H U X W C O L shuffle gen_range draw now a_to_string health_packet N context
            client)
  unfolding health_check
  health_check-Keeps context client = judged-Keeps context.credential _ (
      make_doh_query-Keeps H U X W C O L N shuffle gen_range draw now now true client health_packet
        context)

  check_all-Keeps :
      (clients : List (DohClient O Conn)) (context : Sh)
      → Keeps context.credential (
          check_all H U X W C O L shuffle gen_range draw now a_to_string health_packet N context
            clients)
  unfolding check_all
  check_all-Keeps [] context = refl
  check_all-Keeps (client ∷ clients) context =
      then_check-Keeps context.credential _ _ (health_check-Keeps context client) (λ c e.
        subst
          (λ k. Keeps k (
            check_all H U X W C O L shuffle gen_range draw now a_to_string health_packet N c
              clients))
          e (check_all-Keeps clients c))

  checked_clients-Keeps :
      (context : Sh) (o : Option (List (DohClient O Conn)))
      → Keeps context.credential (
          checked_clients H U X W C O L shuffle gen_range draw now a_to_string health_packet N
            context o)
  unfolding checked_clients
  checked_clients-Keeps context none = refl
  checked_clients-Keeps context (some clients) = check_all-Keeps clients context

  reported-Keeps :
      (credential : Option Credential) (r : Option (Sh × Outcome Bool))
      → Keeps credential r
      → Keeps credential
          (reported H U X W C O L shuffle gen_range draw now a_to_string health_packet N r)
  unfolding reported
  reported-Keeps credential none h = tt
  reported-Keeps credential (some (context, ok b)) h = h
  reported-Keeps credential (some (context, err e)) h = h
  reported-Keeps credential (some (context, panic)) h = h

  after_update-Keeps :
      (credential : Option Credential) (r : Sh × Outcome (Unit {0}))
      → r.0.credential ≡ credential
      → Keeps credential
          (after_update H U X W C O L shuffle gen_range draw now a_to_string health_packet N r)
  unfolding after_update clients_health_check
  after_update-Keeps credential (context, ok _) h = reported-Keeps credential _ (
      subst
        (λ k. Keeps k (
          checked_clients H U X W C O L shuffle gen_range draw now a_to_string health_packet N
            context context.doh_clients))
        h (checked_clients-Keeps context context.doh_clients))
  after_update-Keeps credential (context, err e) h = h
  after_update-Keeps credential (context, panic) h = h

  -- New clients, and the check of their health, leave the credential.
  pub update_client-Keeps :
      (context : Sh)
      → Keeps context.credential (
          update_client H U X W C O L shuffle gen_range draw now a_to_string health_packet N
            context)
  unfolding update_client
  update_client-Keeps context =
      after_update-Keeps context.credential (update_doh_client U X W N context)
        (update_doh_client-credential U X W C O (Cache H L) N shuffle gen_range draw context)
