-- ===== src/Client/Health.antt =====
-- dap-lib/src/doh_client/doh_client_healthcheck.rs: the check of one path. The query's packet, from
-- `build_query_a` and `encode`, is an argument; `warn_on` and `debug_on` say which messages are
-- logged, since the URL of the path is built only for a message that is.
use doh_auth_proxy.Prelude.{
  ℕ, Bool, true, false, not, Option, none, some, List, [], ◌∷◌, Outcome, ok, err, panic, ◌>>=◌,
  if◌then◌else◌, is_empty, is_yes, any, ◌&&◌, ◌||◌, ◌≡◌, ◌≢◌, refl, sym, ◌∙◌, ap, arith, Bool-cases,
  inl, inr,
}
use doh_auth_proxy.Text.{Text, codes, text_eq}
use doh_auth_proxy.Url.{UrlLib}
use doh_auth_proxy.Hickory.{Hickory}
use doh_auth_proxy.Path.{DohPath, make_healthy, make_unhealthy, as_url}
use doh_auth_proxy.Manipulation.Libs.{CedarLib}
use doh_auth_proxy.Client.Http.{HttpLib, HttpRequest, HttpResponse, OdohLib}
use doh_auth_proxy.Client.Exchange.{Net}
use doh_auth_proxy.Client.Query.{DohClient, make_doh_query_inner}

module _ (H : Hickory) (rdata_to_string : H.RData → Text) where
  -- Some record of the answer prints as the expected address.
  abbrev pub target_addr_contains : List H.Record → Bool
  target_addr_contains [] = false
  target_addr_contains (answer ∷ rest) = elim (H.record_data answer) [
    | none ↦ target_addr_contains rest
    | some v ↦
        if text_eq (rdata_to_string v) (codes "8.8.8.8") then true else target_addr_contains rest
  ]

  -- The same as an `any` over the records: the address that a record holds, if it has data.
  abbrev pub holds_address : H.Record → Bool
  holds_address r = elim (H.record_data r) [
    | none ↦ false
    | some v ↦ text_eq (rdata_to_string v) (codes "8.8.8.8")
  ]

  abbrev pub any_address : List H.Record → Bool
  any_address = any holds_address

  -- Why a response makes the path unhealthy, if it does.
  abbrev pub is_good : H.Message → Bool
  is_good res_msg =
      if not (is_yes (H.code_discrete (H.parts res_msg).response_code H.no_error))
      then false
      else if is_empty (H.parts res_msg).answers
      then false
      else target_addr_contains (H.parts res_msg).answers

  contains_lem : (rs : List H.Record) → target_addr_contains rs ≡ any_address rs
  contains_lem [] = refl
  contains_lem (r ∷ rs) =
      elim (H.record_data r)
        as (λ d.
          elim d [
            | none ↦ target_addr_contains rs
            | some v ↦
                if text_eq (rdata_to_string v) (codes "8.8.8.8")
                then true
                else target_addr_contains rs
          ]
          ≡ (elim d [ none ↦ false | some v ↦ text_eq (rdata_to_string v) (codes "8.8.8.8") ]
              || any_address rs)) [
                | none ↦ contains_lem rs
                | some v ↦ ground (arith, contains_lem rs)
              ]

  is_good_lem :
      (m : H.Message)
      → is_good m ≡ (
          is_yes (H.code_discrete (H.parts m).response_code H.no_error)
          && any_address (H.parts m).answers)
  is_good_lem m =
      elim (H.parts m).answers
        as (λ rs.
          (if not (is_yes (H.code_discrete (H.parts m).response_code H.no_error))
            then false
            else if is_empty rs
            then false
            else target_addr_contains rs)
          ≡ (is_yes (H.code_discrete (H.parts m).response_code H.no_error) && any_address rs)) [
            | [] ↦ ground arith
            | r ∷ rs ↦ rw (contains_lem (r ∷ rs)) (ground arith)
          ]

  module _ (U : UrlLib) (C : CedarLib) (W : HttpLib) (O : OdohLib) (warn_on debug_on : Bool) where
    unfoldable pub logged : Bool → DohPath → Outcome (Unit {0})
    logged on path = if on then (as_url U path >>= λ _. ok tt) else ok tt

    judged : DohPath → Outcome (List ℕ × H.Message) → DohPath × Outcome (Unit {0})
    unfolding make_healthy make_unhealthy logged
    judged path (ok (_, res_msg)) =
        if is_good res_msg
        then (make_healthy path, logged debug_on path)
        else (make_unhealthy path, logged warn_on path)
    judged path (err e) = (make_unhealthy path, logged warn_on path)
    judged path panic = (path, panic)

    -- `DoHClient::healthcheck`: what is sent, and the path with its new flag.
    unfoldable pub healthcheck :
        (HttpRequest W → Option HttpResponse)
        → DohClient U H C W O
        → Net U W O
        → List ℕ
        → DohPath
        → Net U W O × (DohPath × Outcome (Unit {0}))
    unfolding judged
    healthcheck http c n packet_buf path =
        let (n1, r) = make_doh_query_inner U H C W O http c n packet_buf path in (n1, judged path r)

    -- The response has no error code and a record with the address.
    abbrev pub answered_well : Outcome (List ℕ × H.Message) → Bool
    answered_well (ok (_, m)) =
        is_yes (H.code_discrete (H.parts m).response_code H.no_error)
        && any_address (H.parts m).answers
    answered_well (err e) = false
    answered_well panic = false

    judged_lem :
        (path : DohPath) (r : Outcome (List ℕ × H.Message))
        → r ≢ panic
        → (judged path r).0 ≡ record path { is_healthy = answered_well r }
    unfolding judged make_healthy make_unhealthy
    judged_lem path (ok (_, m)) h = elim (Bool-cases (is_good m)) [
      | inl g ↦ rw g (ap (λ b. record path { is_healthy = b }) (sym g ∙ is_good_lem m))
      | inr b ↦ rw b (ap (λ d. record path { is_healthy = d }) (sym b ∙ is_good_lem m))
    ]
    judged_lem path (err e) h = refl
    judged_lem path panic h = absurd (h refl)

    -- Unless the query of the check panics, the path is healthy after it exactly if the query was
    -- answered by a message without an error code that has a record with the expected address; the
    -- rest of the path stays.
    pub healthcheck_lem :
        (http : HttpRequest W → Option HttpResponse) (c : DohClient U H C W O) (n : Net U W O)
        (packet_buf : List ℕ) (path : DohPath)
        → (make_doh_query_inner U H C W O http c n packet_buf path).1 ≢ panic
        → (healthcheck http c n packet_buf path).1.0 ≡ record path {
          is_healthy = answered_well (make_doh_query_inner U H C W O http c n packet_buf path).1;
        }
    unfolding healthcheck
    healthcheck_lem http c n packet_buf path h =
        judged_lem path (make_doh_query_inner U H C W O http c n packet_buf path).1 h

    -- A query that panics is a check that panics.
    pub healthcheck_panics :
        (http : HttpRequest W → Option HttpResponse) (c : DohClient U H C W O) (n : Net U W O)
        (packet_buf : List ℕ) (path : DohPath)
        → (make_doh_query_inner U H C W O http c n packet_buf path).1 ≡ panic
        → (healthcheck http c n packet_buf path).1.1 ≡ panic
    unfolding healthcheck judged
    healthcheck_panics http c n packet_buf path h = rw h refl
