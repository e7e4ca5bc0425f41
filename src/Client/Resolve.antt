-- ===== src/Client/Resolve.antt =====
-- `ResolveIps` for the client of dap-lib/src/doh_client/doh_client_main.rs: the addresses of a host,
-- by a query of the client itself. `as_a` reads the address of an A record, and `print` is how the
-- standard library prints it.
use doh_auth_proxy.Prelude.{
  ℕ, ◌≡◌, refl, subst, false, not, Option, none, some, List, [], ◌∷◌, ◌++◌, Memᴰ, All, Outcome, ok,
  err, panic, ◌>>=◌, >>=-eq-ok, ok_inj, map_err, invalid_dns_response,
  failed_to_resolve_ips_for_http_client, if◌then◌else◌, is_empty, is_yes, is_yes_iff, Bool-cases,
  inl, inr,
}
use doh_auth_proxy.Text.{Text, codes}
use doh_auth_proxy.Url.{UrlLib}
use doh_auth_proxy.Globals.{SocketAddr, AddrParser}
use doh_auth_proxy.Hickory.{Hickory}
use doh_auth_proxy.Dns.{Request, encode, decode, is_response}
use doh_auth_proxy.Dns.BuildQuery.{QueryLib, build_query_a}
use doh_auth_proxy.Path.{show}
use doh_auth_proxy.Cache.{CacheObject}
use doh_auth_proxy.Cache.Linked.{LinkedHashMap}
use doh_auth_proxy.Manipulation.Libs.{CedarLib}
use doh_auth_proxy.Client.Http.{HttpLib, HttpRequest, HttpResponse, OdohLib}
use doh_auth_proxy.Client.Query.{DohClient, ClientState, make_doh_query}
use doh_auth_proxy.HttpClient.{ResolveIpResponse}
use doh_auth_proxy.HttpClient.Bootstrap.{port_or_default, socket_addrs}

module _ (H : Hickory) (P : AddrParser) (as_a : H.RData → Option ℕ) (print : ℕ → Text) where
  address_of : Option H.RData → Option ℕ
  address_of none = none
  address_of (some d) = as_a d

  with_address : Option ℕ → List ℕ → List ℕ
  with_address none rest = rest
  with_address (some a) rest = a ∷ rest

  -- The addresses of the A records among the answers.
  a_records : List H.Record → List ℕ
  unfolding address_of with_address
  a_records [] = []
  a_records (r ∷ rs) = with_address (address_of (H.record_data r)) (a_records rs)

  from_message : Text → ℕ → H.Message → Outcome ResolveIpResponse
  unfolding a_records
  from_message host port r_msg =
      if not (is_yes (H.code_discrete (H.parts r_msg).response_code H.no_error))
      then err failed_to_resolve_ips_for_http_client
      else if is_empty (H.parts r_msg).answers
      then err failed_to_resolve_ips_for_http_client
      else let addrs = socket_addrs P print port (a_records (H.parts r_msg).answers) in
        if is_empty addrs
        then err failed_to_resolve_ips_for_http_client
        else ok (record { hostname = host; addresses = addrs })

  -- What the packet of the response gives.
  unfoldable pub from_response : Text → ℕ → List ℕ → Outcome ResolveIpResponse
  unfolding from_message
  from_response host port res = map_err invalid_dns_response (is_response H res) >>= λ _.
      decode H res >>= λ r_msg. from_message host port r_msg

  -- A socket address that an answer of the message holds.
  pub record IsAnswered (m : H.Message) (port : ℕ) (s : SocketAddr) : Type 0 where
    pub answer : H.Record
    pub rdata : H.RData
    pub address : ℕ
    pub among : Memᴰ answer (H.parts m).answers
    pub has_data : H.record_data answer ≡ some rdata
    pub is_a : as_a rdata ≡ some address
    pub parses : P.parse_socket (print address ++ (codes ":" ++ show port)) ≡ some s

  pub record IsResolved (host : Text) (port : ℕ) (r : ResolveIpResponse) (m : H.Message)
      : Type 0 where
    pub same_host : r.hostname ≡ host
    pub no_error : (H.parts m).response_code ≡ H.no_error
    pub some_address : is_empty r.addresses ≡ false
    pub answered : All (IsAnswered m port) r.addresses

  All-first_address :
      (R : SocketAddr → Type 0) (port a : ℕ) (l : List ℕ)
      → ((s : SocketAddr) → P.parse_socket (print a ++ (codes ":" ++ show port)) ≡ some s → R s)
      → All R (socket_addrs P print port l)
      → All R (socket_addrs P print port (a ∷ l))
  unfolding socket_addrs
  All-first_address R port a l h rest =
      (elim (P.parse_socket (print a ++ (codes ":" ++ show port)))
          as (λ o.
            P.parse_socket (print a ++ (codes ":" ++ show port)) ≡ o
            → All R (elim o [
              | none ↦ socket_addrs P print port l
              | some s ↦ s ∷ socket_addrs P print port l
            ])) [ none ↦ λ _. rest | some s ↦ λ e. (h s e, rest) ])
        refl

  of_answer :
      (m : H.Message) (port : ℕ) (r : H.Record) (a : ℕ) (s : SocketAddr)
      → Memᴰ r (H.parts m).answers
      → address_of (H.record_data r) ≡ some a
      → P.parse_socket (print a ++ (codes ":" ++ show port)) ≡ some s
      → IsAnswered m port s
  unfolding address_of
  of_answer m port r a s among e parses =
      (elim (H.record_data r)
          as (λ o. H.record_data r ≡ o → address_of o ≡ some a → IsAnswered m port s) [
            | none ↦ λ _ e. cc
            | some d ↦ λ data_of is_a. record {
              answer = r;
              rdata = d;
              address = a;
              among = among;
              has_data = data_of;
              is_a = is_a;
              parses = parses;
            }
          ])
        refl e

  All-a_records :
      (m : H.Message) (port : ℕ) (rs : List H.Record)
      → ((r : H.Record) → Memᴰ r rs → Memᴰ r (H.parts m).answers)
      → All (IsAnswered m port) (socket_addrs P print port (a_records rs))
  unfolding a_records socket_addrs with_address
  All-a_records m port [] h = tt
  All-a_records m port (r ∷ rs) h =
      let rest = All-a_records m port rs (λ x i. h x (Memᴰ.tail i)) in
      (elim (address_of (H.record_data r))
          as (λ o.
            address_of (H.record_data r) ≡ o
            → All (IsAnswered m port) (socket_addrs P print port (with_address o (a_records rs)))) [
              | none ↦ λ _. rest
              | some a ↦ λ e.
                  All-first_address (IsAnswered m port) port a (a_records rs)
                    (λ s. of_answer m port r a s (h r (Memᴰ.head refl)) e) rest
            ])
        refl

  from_message_lem :
      (host : Text) (port : ℕ) (m : H.Message) (r : ResolveIpResponse)
      → from_message host port m ≡ ok r
      → IsResolved host port r m
  unfolding from_message
  from_message_lem host port m r e =
      let good = is_yes (H.code_discrete (H.parts m).response_code H.no_error) in
      let addrs = socket_addrs P print port (a_records (H.parts m).answers) in
      elim (Bool-cases good) [
        | inr bad ↦ cc (rw bad at e)
        | inl fine ↦ elim (Bool-cases (is_empty (H.parts m).answers)) [
          | inl nothing ↦ cc (rw (fine, nothing) at e)
          | inr something ↦ elim (Bool-cases (is_empty addrs)) [
            | inl nowhere ↦ cc (rw (fine, something, nowhere) at e)
            | inr somewhere ↦
                let same = ok_inj (rw (fine, something, somewhere) at e) in
                subst (λ r. IsResolved host port r m) same
                  (record {
                    same_host = refl;
                    no_error =
                        (is_yes_iff (H.code_discrete (H.parts m).response_code H.no_error)).0 fine;
                    some_address = somewhere;
                    answered = All-a_records m port (H.parts m).answers (λ x i. i);
                  })
          ]
        ]
      ]

  from_response_lem :
      (host : Text) (port : ℕ) (res : List ℕ) (r : ResolveIpResponse)
      → from_response host port res ≡ ok r
      → (m : H.Message) × (decode H res ≡ ok m) × IsResolved host port r m
  unfolding from_response
  from_response_lem host port res r e =
      let (q, is_one, rest) = >>=-eq-ok (map_err invalid_dns_response (is_response H res)) _ e in
      let (m, decoded, made) = >>=-eq-ok (decode H res) _ rest in
      (m, decoded, from_message_lem host port m r made)

module _ (U : UrlLib) (H : Hickory) (C : CedarLib) (W : HttpLib) (O : OdohLib)
    (http : HttpRequest W → Option HttpResponse) {dec : Discrete (Request H)}
    (L : LinkedHashMap (Request H) (CacheObject H) dec) (Q : QueryLib H) (P : AddrParser)
    (as_a : H.RData → Option ℕ) (print : ℕ → Text) where
  module _ (now after : ℕ) (draw : ℕ → ℕ → ℕ) (c : DohClient U H C W O) where
    asked :
        ClientState U H C W O http L
        → Text
        → ℕ
        → Outcome (List ℕ)
        → ClientState U H C W O http L × Outcome ResolveIpResponse
    asked s host port (ok packet_buf) =
        let (s', res) = make_doh_query U H C W O http L now after draw c s packet_buf in
        (s', res >>= from_response H P as_a print host port)
    asked s host port (err e) = (s, err e)
    asked s host port panic = (s, panic)

    on_host :
        ℕ
        → ClientState U H C W O http L
        → U.Url
        → Option Text
        → ClientState U H C W O http L × Outcome ResolveIpResponse
    unfolding asked
    on_host id s target_url none = (s, err failed_to_resolve_ips_for_http_client)
    on_host id s target_url (some host) =
        asked s host (port_or_default U target_url)
          (build_query_a H Q id (host ++ codes ".") >>= λ q_msg. encode H q_msg)

    -- `id` is the random id of the query.
    unfoldable pub resolve_host_ips :
        ℕ
        → ClientState U H C W O http L
        → U.Url
        → ClientState U H C W O http L × Outcome ResolveIpResponse
    unfolding on_host
    resolve_host_ips id s target_url = on_host id s target_url (U.host_domain target_url)

    asked-eq-ok :
        (s : ClientState U H C W O http L) (host : Text) (port : ℕ) (packet : Outcome (List ℕ))
        (r : ResolveIpResponse)
        → (asked s host port packet).1 ≡ ok r
        → (packet_buf : List ℕ) × (res : List ℕ) × ((make_doh_query U H C W O http L now after draw
              c s packet_buf).1
            ≡ ok res)
          × (m : H.Message) × (decode H res ≡ ok m)
          × IsResolved H P as_a print host port r m
    unfolding asked
    asked-eq-ok s host port (ok packet_buf) r e =
        let (res, answer, made) =
          >>=-eq-ok (make_doh_query U H C W O http L now after draw c s packet_buf).1 _ e in
        let (m, decoded, resolved) = from_response_lem H P as_a print host port res r made in
        (packet_buf, res, answer, m, decoded, resolved)
    asked-eq-ok s host port (err x) r e = cc
    asked-eq-ok s host port panic r e = cc

    -- How a URL was resolved: the domain, the query and the response.
    abbrev pub Resolution : ClientState U H C W O http L → U.Url → ResolveIpResponse → Type 0
    Resolution s target_url r =
        (host : Text) × (U.host_domain target_url ≡ some host)
        × (packet_buf : List ℕ) × (res : List ℕ) × ((make_doh_query U H C W O http L now after draw
              c s packet_buf).1
            ≡ ok res)
        × (m : H.Message) × (decode H res ≡ ok m)
        × IsResolved H P as_a print host (port_or_default U target_url) r m

    -- Where resolving a URL gives addresses, its host is a domain, a query of the client was
    -- answered by a message without an error code, and every address is that of an A record among
    -- its answers with the port of the URL; there is at least one, and the name is that domain.
    pub resolve_host_ips_lem :
        (id : ℕ) (s : ClientState U H C W O http L) (target_url : U.Url) (r : ResolveIpResponse)
        → (resolve_host_ips id s target_url).1 ≡ ok r
        → Resolution s target_url r
    unfolding resolve_host_ips on_host
    resolve_host_ips_lem id s target_url r e =
        (elim (U.host_domain target_url)
            as (λ o.
              U.host_domain target_url ≡ o
              → (on_host id s target_url o).1 ≡ ok r
              → Resolution s target_url r) [
                | none ↦ λ _ e. cc
                | some host ↦ λ domain e.
                    let (packet_buf, res, answer, m, decoded, resolved) =
                      asked-eq-ok s host _ _ r e in
                    (host, domain, packet_buf, res, answer, m, decoded, resolved)
              ])
          refl e
