-- ===== src/Dns/BuildQuery.antt =====
-- `build_query_a` of dap-lib/src/doh_client/dns_message.rs, and what it takes from hickory_proto.
use doh_auth_proxy.Prelude.{
  ℕ, ◌≡◌, refl, ap, ◌∙◌, Bool, Option, none, some, [], ◌∷◌, ◌++◌, map, Outcome, ok, ◌>>=◌,
  >>=-eq-ok, ok_inj, subst, unwrap, if◌then◌else◌, Bool-cases, inl, inr,
}
use doh_auth_proxy.Text.{Text, to_ascii_lowercase}
use doh_auth_proxy.Hickory.{Hickory, query}
use doh_auth_proxy.Dns.{QueryKey, key_of}

-- Building a query. `with_edns` puts an EDNS record with the payload and the version in the
-- extensions; the setters of what `parts` does not hold leave the parts.
pub record QueryLib (H : Hickory) : Type 0 where
  pub name_from_ascii : Text → Option H.Name
  pub query_of : H.Name → H.RecordType → H.Query
  pub set_query_class : H.Query → H.DnsClass → H.Query
  pub new_message : H.Message
  pub add_query : H.Message → H.Query → H.Message
  pub set_op_code_query : H.Message → H.Message
  pub set_recursion_desired : H.Message → Bool → H.Message
  pub with_edns : H.Message → ℕ → ℕ → H.Message
  pub recursion_desired : Bool
  pub use_edns : Bool
  pub max_payload_len : ℕ
  pub query_name-query_of : (n : H.Name) (t : H.RecordType) → H.query_name (query_of n t) ≡ n
  pub query_type-query_of : (n : H.Name) (t : H.RecordType) → H.query_type (query_of n t) ≡ t
  pub query_name-set_query_class :
      (q : H.Query) (c : H.DnsClass) → H.query_name (set_query_class q c) ≡ H.query_name q
  pub query_type-set_query_class :
      (q : H.Query) (c : H.DnsClass) → H.query_type (set_query_class q c) ≡ H.query_type q
  pub query_class-set_query_class :
      (q : H.Query) (c : H.DnsClass) → H.query_class (set_query_class q c) ≡ c
  pub queries-new_message : (H.parts new_message).queries ≡ []
  pub parts-add_query :
      (m : H.Message) (q : H.Query)
      → H.parts (add_query m q) ≡ record (H.parts m) { queries = (H.parts m).queries ++ q ∷ [] }
  pub parts-set_op_code_query : (m : H.Message) → H.parts (set_op_code_query m) ≡ H.parts m
  pub parts-set_recursion_desired :
      (m : H.Message) (b : Bool) → H.parts (set_recursion_desired m b) ≡ H.parts m
  pub parts-with_edns :
      (m : H.Message) (payload version : ℕ) → H.parts (with_edns m payload version) ≡ H.parts m

module _ (H : Hickory) (Q : QueryLib H) where
  -- The query for a name that is parsed, with a random id.
  query_for : ℕ → H.Name → H.Message
  query_for id qname =
      let query_a = Q.set_query_class (Q.query_of qname H.type_a) H.class_in in
      let msg =
        Q.set_recursion_desired
          (Q.set_op_code_query
            (H.set_message_type (H.set_id (Q.add_query Q.new_message query_a) id) query))
          Q.recursion_desired in
      if Q.use_edns then Q.with_edns msg Q.max_payload_len 0 else msg

  unfoldable pub build_query_a : ℕ → Text → Outcome H.Message
  unfolding query_for
  build_query_a id fqdn = unwrap (Q.name_from_ascii fqdn) >>= λ qname. ok (query_for id qname)

  parts-query_for :
      (id : ℕ) (qname : H.Name)
      → ((H.parts (query_for id qname)).queries
          ≡ Q.set_query_class (Q.query_of qname H.type_a) H.class_in ∷ [])
        × ((H.parts (query_for id qname)).id ≡ id)
        × ((H.parts (query_for id qname)).message_type ≡ query)
  unfolding query_for
  parts-query_for id qname = elim (Bool-cases Q.use_edns) [
    | inl on ↦ rw on (
        rw
          (
            Q.parts-with_edns, Q.parts-set_recursion_desired, Q.parts-set_op_code_query,
            H.parts-set_message_type, H.parts-set_id, Q.parts-add_query, Q.queries-new_message,
          )
          (refl, refl, refl))
    | inr off ↦ rw off (
        rw
          (
            Q.parts-set_recursion_desired, Q.parts-set_op_code_query, H.parts-set_message_type,
            H.parts-set_id, Q.parts-add_query, Q.queries-new_message,
          )
          (refl, refl, refl))
  ]

  unwrap-eq-ok : {A : Type 0} (o : Option A) (a : A) → unwrap o ≡ ok a → o ≡ some a
  unwrap-eq-ok none a e = cc
  unwrap-eq-ok (some b) a e = ap some (ok_inj e)

  -- Where the name is ASCII, the result is a query with the given id that asks for one thing: the
  -- IPv4 address of the name, in the class IN. Otherwise building it panics.
  pub build_query_a_lem :
      (id : ℕ) (fqdn : Text) (m : H.Message)
      → build_query_a id fqdn ≡ ok m
      → (qname : H.Name) × (Q.name_from_ascii fqdn ≡ some qname)
        × (map (key_of H) (H.parts m).queries
            ≡ record {
              query_name = to_ascii_lowercase (H.name_to_string qname);
              query_type = H.type_a;
              query_class = H.class_in;
            }
              ∷ [])
        × ((H.parts m).id ≡ id)
        × ((H.parts m).message_type ≡ query)
  unfolding build_query_a key_of
  build_query_a_lem id fqdn m e =
      let (qname, parsed, made) = >>=-eq-ok (unwrap (Q.name_from_ascii fqdn)) _ e in
      let (asked, same_id, kind) = parts-query_for id qname in
      let one : QueryKey H = record {
        query_name = to_ascii_lowercase (H.name_to_string qname);
        query_type = H.type_a;
        query_class = H.class_in;
      } in
      (
        qname,
        unwrap-eq-ok _ qname parsed,
        subst (λ m. map (key_of H) (H.parts m).queries ≡ one ∷ []) (ok_inj made)
            (ap (map (key_of H)) asked
              ∙ rw
                  (
                    Q.query_name-set_query_class, Q.query_type-set_query_class,
                    Q.query_class-set_query_class, Q.query_name-query_of, Q.query_type-query_of,
                  )
                  refl),
        subst (λ m. (H.parts m).id ≡ id) (ok_inj made) same_id,
        subst (λ m. (H.parts m).message_type ≡ query) (ok_inj made) kind,
      )
