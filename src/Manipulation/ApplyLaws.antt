-- ===== src/Manipulation/ApplyLaws.antt =====
-- What the manipulators answer, and in which order they are asked.
use doh_auth_proxy.Prelude.{
  ℕ, ◌≡◌, refl, ◌∙◌, inl, inr, Bool, true, false, Option, none, some, List, [], ◌∷◌, Outcome, ok,
  err, panic, ◌>>=◌, if◌then◌else◌, is_empty, Option-cases,
}
use doh_auth_proxy.Globals.{IpAddr}
use doh_auth_proxy.Hickory.{Hickory, MessageParts, response}
use doh_auth_proxy.Dns.{QueryKey, rdata_of, build_response_nx, build_response_given_ipaddr}
use doh_auth_proxy.Manipulation.Libs.{CedarLib}
use doh_auth_proxy.Manipulation.Block.{DomainBlockRule, in_blocklist}
use doh_auth_proxy.Manipulation.Override.{DomainOverrideRule, find_mapping}
use doh_auth_proxy.Manipulation.Apply.{
  ManipulationResult, pass_through, synthetic_response, or_else, Manipulator, domain_override,
  domain_block, apply_override, apply_all,
}

module _ (H : Hickory) where
  -- The response to a blocked query is the query, id and questions included, as a response with
  -- the code NXDOMAIN.
  pub parts-build_response_nx :
      (msg : H.Message)
      → H.parts (build_response_nx H msg)
        ≡ record (H.parts msg) { message_type = response; response_code = H.nx_domain }
  unfolding build_response_nx
  parts-build_response_nx msg =
      H.parts-set_response_code _ _ ∙ rw (H.parts-set_message_type msg response)

  -- The response to an overridden query.
  abbrev pub overridden :
      H.Message → H.Name → ℕ → IpAddr → MessageParts H.Query H.Record H.ResponseCode
  overridden msg name ttl addr = record (H.parts msg) {
    message_type = response;
    response_code = H.no_error;
    answers = H.from_rdata name ttl (rdata_of H addr) ∷ [];
  }

  module _ (msg : H.Message) (q_key : QueryKey H) (addr : IpAddr) (ttl : ℕ) where
    prepared : H.Message
    prepared = H.set_response_code (H.set_message_type msg response) H.no_error

    parts-prepared :
        H.parts prepared
        ≡ record (H.parts msg) { message_type = response; response_code = H.no_error }
    unfolding prepared
    parts-prepared = H.parts-set_response_code _ _ ∙ rw (H.parts-set_message_type msg response)

    -- For a query with no answer section and a name that parses, the response has one answer: the
    -- given address under the query's name, with the given TTL. Id and questions are the query's.
    pub build_response_given_ipaddr_lem :
        (name : H.Name)
        → H.name_from_str q_key.query_name ≡ some name
        → is_empty (H.parts msg).answers ≡ true
        → (m : H.Message) × (build_response_given_ipaddr H msg q_key addr ttl ≡ ok m)
          × (H.parts m ≡ overridden msg name ttl addr)
    unfolding build_response_given_ipaddr prepared
    build_response_given_ipaddr_lem name e no_answers =
        let no_answers' : is_empty (H.parts prepared).answers ≡ true =
          rw parts-prepared no_answers in
        let (m, em, pm) =
          H.insert_answers_lem prepared (H.from_rdata name ttl (rdata_of H addr) ∷ [])
            no_answers' in
        (m, rw (e, em), pm ∙ rw parts-prepared)

    -- A query that comes with an answer section, under a name that parses, makes the override
    -- panic.
    pub build_response_given_ipaddr_panics :
        (name : H.Name)
        → H.name_from_str q_key.query_name ≡ some name
        → is_empty (H.parts msg).answers ≡ false
        → build_response_given_ipaddr H msg q_key addr ttl ≡ panic
    unfolding build_response_given_ipaddr prepared
    build_response_given_ipaddr_panics name e some_answer =
        let some_answer' : is_empty (H.parts prepared).answers ≡ false =
          rw parts-prepared some_answer in
        rw (
          e,
          H.insert_answers_panics prepared (H.from_rdata name ttl (rdata_of H addr) ∷ [])
              some_answer',
        )

module _ (H : Hickory) (C : CedarLib) (over : DomainOverrideRule) (block : DomainBlockRule C)
    (msg : H.Message) (q_key : QueryKey H) where
  abbrev both : List (Manipulator C)
  both = domain_override over ∷ domain_block block ∷ []

  -- What the answer of the override is, or of the block rule where there is none.
  abbrev pub decided : Option IpAddr → Outcome (ManipulationResult H)
  decided (some addr) =
      build_response_given_ipaddr H msg q_key addr over.min_ttl >>= λ m. ok (synthetic_response m)
  decided none = in_blocklist C block q_key >>= λ blocked.
      ok (if blocked then synthetic_response (build_response_nx H msg) else pass_through)

  after_override :
      (r : Outcome H.Message) (rest : Outcome (ManipulationResult H))
      → ((r >>= λ m. ok (synthetic_response m)) >>= λ result. or_else result rest)
        ≡ (r >>= λ m. ok (synthetic_response m))
  after_override (ok m) rest = refl
  after_override (err e) rest = refl
  after_override panic rest = refl

  abbrev answer : Bool → Outcome (ManipulationResult H)
  answer blocked =
      if blocked then ok (synthetic_response (build_response_nx H msg)) else ok pass_through

  after_block :
      (r : Outcome Bool)
      → ((r >>= answer) >>= λ result. or_else result (ok pass_through)) ≡ (
          r >>= λ blocked.
          ok (if blocked then synthetic_response (build_response_nx H msg) else pass_through))
  after_block (ok true) = refl
  after_block (ok false) = refl
  after_block (err e) = refl
  after_block panic = refl

  apply_last :
      apply_all H C (domain_block block ∷ []) msg q_key
      ≡ ((in_blocklist C block q_key >>= answer) >>= λ result. or_else result (ok pass_through))
  unfolding apply_all
  apply_last = refl

  -- With both rules, the override decides where it maps the name, and the block rule is asked only
  -- where it does not.
  pub apply_all-both : apply_all H C both msg q_key ≡ decided (find_mapping H over q_key)
  unfolding apply_all
  apply_all-both = elim (Option-cases (find_mapping H over q_key)) [
    | inl e ↦ rw (apply_override, e) (apply_last ∙ after_block (in_blocklist C block q_key))
    | inr (addr, e) ↦
        rw (apply_override, e)
          (after_override (build_response_given_ipaddr H msg q_key addr over.min_ttl) _)
  ]
