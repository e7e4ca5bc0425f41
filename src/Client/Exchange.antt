-- ===== src/Client/Exchange.antt =====
-- dap-lib/src/doh_client/doh_client_main.rs: the exchange with a server, over DoH and ODoH. `http`
-- answers a request, with nothing where sending fails, and `sent` lists the requests in the order
-- they go out.
use doh_auth_proxy.Prelude.{
  ℕ, Bool, ◌&&◌, ◌||◌, not, Option, none, some, List, [], ◌∷◌, ◌++◌, Outcome, ok, err, panic, ◌>>=◌,
  http_client_error, odoh_no_client_config, odoh_get_not_allowed, odoh_invalid_content_length,
  doh_query_error, if◌then◌else◌, ok_or, ◌==◌,
}
use doh_auth_proxy.Text.{Text, codes}
use doh_auth_proxy.Url.{UrlLib}
use doh_auth_proxy.Path.{DohPath, as_url}
use doh_auth_proxy.Client.Http.{
  DohMethod, get_method, post_method, HttpLib, HttpRequest, HttpResponse, OdohLib,
}
use doh_auth_proxy.Client.Odoh.{
  OdohConfig, OdohConfigStore, get_config, encrypt_query, decrypt_response, update_odoh_config,
}

module _ (U : UrlLib) (W : HttpLib) (O : OdohLib) where
  -- What a client does to the outside: the requests it sent, and its store of ODoH keys.
  pub record Net : Type 0 where
    pub sent : List (HttpRequest W)
    pub odoh_configs : Option (OdohConfigStore O)

  abbrev pub Run : Type 0 → Type 0
  Run A = Net × Outcome A

  abbrev pub then_run : {A B : Type 0} → Run A → (Net → A → Run B) → Run B
  then_run (n, ok a) f = f n a
  then_run (n, err e) f = (n, err e)
  then_run (n, panic) f = (n, panic)

  module _ (http : HttpRequest W → Option HttpResponse) where
    unfoldable pub send : Net → HttpRequest W → Run HttpResponse
    send n r = (record n { sent = n.sent ++ r ∷ [] }, ok_or http_client_error (http r))

    module _ (doh_method : DohMethod) where
      doh_request : Text → List ℕ → W.Headers → HttpRequest W
      doh_request url packet_buf headers = elim doh_method [
        | get_method ↦ record {
          method = get_method;
          url = url ++ (codes "?dns=" ++ W.base64url packet_buf);
          headers = headers;
          body = [];
        }
        | post_method ↦ record {
          method = post_method;
          url = url;
          headers = headers;
          body = packet_buf;
        }
      ]

      unfoldable pub serve_doh_query : Net → List ℕ → DohPath → W.Headers → Run (List ℕ)
      unfolding send doh_request
      serve_doh_query n packet_buf path headers =
          then_run (n, as_url U path)
            (λ n0 url.
              then_run (send n0 (doh_request (U.as_str url) packet_buf headers)) (λ n1 response.
                if not (response.status == 200)
                then (n1, err doh_query_error)
                else (n1, ok_or http_client_error response.body)))

      -- The configuration for the target of a path.
      stored_config : Option (OdohConfigStore O) → DohPath → Outcome (OdohConfig O)
      stored_config none path = err odoh_no_client_config
      stored_config (some store) path =
          ok_or odoh_no_client_config (get_config O store path.target)
          >>= ok_or odoh_no_client_config

      -- The keys fetched anew.
      refetch : Net → Run (Unit {0})
      refetch n = elim n.odoh_configs [
        | none ↦ (n, panic)
        | some store ↦ elim (update_odoh_config O U W http store) [
          | ok r ↦ (record n { sent = n.sent ++ r.0; odoh_configs = some r.1 }, ok tt)
          | err e ↦ (n, err e)
          | panic ↦ (n, panic)
        ]
      ]

      -- 401, or an empty body with 200.
      abbrev pub is_expired : HttpResponse → ℕ → Bool
      is_expired response content_length =
          response.status == 401 || response.status == 200 && content_length == 0

      -- What follows on a response of a relay.
      odoh_answer : Net → O.Plaintext → O.Secret → HttpResponse → ℕ → Run (List ℕ)
      unfolding refetch
      odoh_answer n query secret response content_length =
          then_run (if is_expired response content_length then refetch n else (n, ok tt)) (λ n1 _.
            if not (response.status == 200) then (n1, err doh_query_error) else (
              n1,
              ok_or http_client_error response.body >>= λ body.
                  decrypt_response O query body secret,
            ))

      odoh_post : Net → Text → List ℕ → O.Plaintext → O.Secret → W.Headers → Run (List ℕ)
      unfolding send odoh_answer
      odoh_post n url body query secret headers =
          then_run
            (send n (record { method = post_method; url = url; headers = headers; body = body }))
            (λ n1 response.
              then_run (n1, ok_or odoh_invalid_content_length response.content_length)
                (λ n2 content_length. odoh_answer n2 query secret response content_length))

      unfoldable pub serve_oblivious_doh_query : Net → List ℕ → DohPath → W.Headers → Run (List ℕ)
      unfolding stored_config odoh_post
      serve_oblivious_doh_query n packet_buf path headers =
          then_run (n, as_url U path)
            (λ n0 path_url.
              then_run (n0, stored_config n0.odoh_configs path)
                (λ n1 odoh_config.
                  then_run (n1, encrypt_query O odoh_config packet_buf)
                    (λ n2 e. elim doh_method [
                      | get_method ↦ (n2, err odoh_get_not_allowed)
                      | post_method ↦ odoh_post n2 (U.as_str path_url) e.1 e.0 e.2 headers
                    ])))
