-- ===== src/Tests/Message.antt =====
-- An instance of the interface to hickory_proto: messages as their parts, and a small encoding.
use doh_auth_proxy.Prelude.{
  ℕ, zero, suc, ◌≡◌, refl, ap, true, false, Option, none, some, List, [], ◌∷◌, ◌++◌, is_empty,
  ℕ_discrete, if◌then◌else◌,
}
use mathlib.Core.List.{List-discrete}
use Prim.Derive.{retract_discrete}
use doh_auth_proxy.Text.{Text}
use doh_auth_proxy.Hickory.{Hickory, query, response, MessageParts}
use doh_auth_proxy.Dns.{QueryKey, Request}
use doh_auth_proxy.Dns.BuildQuery.{QueryLib}

pub record ToyRecord : Type 0 where
  pub ttl : ℕ
  pub payload : ℕ

pub record ToyQuery : Type 0 where
  pub name : Text
  pub qtype : ℕ
  pub class : ℕ

abbrev pub ToyMessage : Type 0
ToyMessage = MessageParts ToyQuery ToyRecord ℕ

abbrev insert_if_none : ToyMessage → List ToyRecord → Option ToyMessage
insert_if_none m rs = if is_empty m.answers then some (record m { answers = rs }) else none

pub insert_some :
    (m : ToyMessage) (rs : List ToyRecord)
    → is_empty m.answers ≡ true
    → (m' : ToyMessage) × (insert_if_none m rs ≡ some m') × (m' ≡ record m { answers = rs })
insert_some m rs h = (record m { answers = rs }, rw h refl, refl)

pub insert_none :
    (m : ToyMessage) (rs : List ToyRecord) → is_empty m.answers ≡ false → insert_if_none m rs ≡ none
insert_none m rs h = rw h refl

abbrev pub toy_query : ℕ → Text → ToyMessage
toy_query id name = record {
  id = id;
  message_type = query;
  response_code = 0;
  queries = record { name = name; qtype = 1; class = 1 } ∷ [];
  answers = [];
  additionals = [];
  name_servers = [];
}

abbrev pub toy_answer : ℕ → ℕ → ℕ → ToyMessage
toy_answer id ttl payload = record {
  id = id;
  message_type = response;
  response_code = 0;
  queries = [];
  answers = record { ttl = ttl; payload = payload } ∷ [];
  additionals = [];
  name_servers = [];
}

-- A query is its id, a 0 and its name; an answer its id, a 1, the TTL and the payload of its record.
abbrev toy_from_bytes : List ℕ → Option ToyMessage
toy_from_bytes (id ∷ zero ∷ name) = some (toy_query id name)
toy_from_bytes (id ∷ suc zero ∷ ttl ∷ payload ∷ []) = some (toy_answer id ttl payload)
toy_from_bytes _ = none

abbrev toy_to_bytes : ToyMessage → Option (List ℕ)
toy_to_bytes m = elim m.answers [
  | [] ↦ some (m.id ∷ 0 ∷ m.response_code ∷ [])
  | r ∷ rs ↦ some (m.id ∷ 1 ∷ r.ttl ∷ r.payload ∷ [])
]

abbrev pub toy_hickory : Hickory
toy_hickory = record {
  Message = ToyMessage;
  Query = ToyQuery;
  Record = ToyRecord;
  RData = ℕ;
  Name = Text;
  RecordType = ℕ;
  DnsClass = ℕ;
  ResponseCode = ℕ;
  no_error = 0;
  nx_domain = 3;
  code_discrete = ℕ_discrete;
  type_a = 1;
  type_aaaa = 28;
  type_discrete = ℕ_discrete;
  class_in = 1;
  class_discrete = ℕ_discrete;
  type_rank = λ t. t;
  class_rank = λ c. c;
  parts = λ m. m;
  from_bytes = toy_from_bytes;
  to_bytes = toy_to_bytes;
  set_id = λ m n. record m { id = n };
  set_message_type = λ m t. record m { message_type = t };
  set_response_code = λ m c. record m { response_code = c };
  take_answers = λ m. (m.answers, record m { answers = [] });
  take_additionals = λ m. (m.additionals, record m { additionals = [] });
  take_name_servers = λ m. (m.name_servers, record m { name_servers = [] });
  add_answer = λ m r. record m { answers = m.answers ++ r ∷ [] };
  add_additional = λ m r. record m { additionals = m.additionals ++ r ∷ [] };
  add_name_server = λ m r. record m { name_servers = m.name_servers ++ r ∷ [] };
  insert_answers = insert_if_none;
  query_name = λ q. q.name;
  query_type = λ q. q.qtype;
  query_class = λ q. q.class;
  name_to_string = λ n. n;
  name_from_str = λ s. some s;
  ttl = λ r. r.ttl;
  set_ttl = λ r n. record r { ttl = n };
  record_data = λ r. some r.payload;
  from_rdata = λ name n d. record { ttl = n; payload = d };
  rdata_a = λ a. a;
  rdata_aaaa = λ a. a;
  parts-set_id = λ m n. refl;
  parts-set_message_type = λ m t. refl;
  parts-set_response_code = λ m c. refl;
  take_answers_lem = λ m. refl;
  parts-take_answers = λ m. refl;
  take_additionals_lem = λ m. refl;
  parts-take_additionals = λ m. refl;
  take_name_servers_lem = λ m. refl;
  parts-take_name_servers = λ m. refl;
  parts-add_answer = λ m r. refl;
  parts-add_additional = λ m r. refl;
  parts-add_name_server = λ m r. refl;
  insert_answers_lem = insert_some;
  insert_answers_panics = insert_none;
  ttl-set_ttl = λ r n. refl;
  record_data-set_ttl = λ r n. refl;
  ttl-from_rdata = λ name n d. refl;
  record_data-from_rdata = λ name n d. refl;
}

abbrev pub toy_builder : QueryLib toy_hickory
toy_builder = record {
  name_from_ascii = λ s. some s;
  query_of = λ n t. record { name = n; qtype = t; class = 1 };
  set_query_class = λ q c. record q { class = c };
  new_message = record {
    id = 0;
    message_type = query;
    response_code = 0;
    queries = [];
    answers = [];
    additionals = [];
    name_servers = [];
  };
  add_query = λ m q. record m { queries = m.queries ++ q ∷ [] };
  set_op_code_query = λ m. m;
  set_recursion_desired = λ m on. m;
  with_edns = λ m payload version. m;
  recursion_desired = true;
  use_edns = true;
  max_payload_len = 1232;
  query_name-query_of = λ n t. refl;
  query_type-query_of = λ n t. refl;
  query_name-set_query_class = λ q c. refl;
  query_type-set_query_class = λ q c. refl;
  query_class-set_query_class = λ q c. refl;
  queries-new_message = refl;
  parts-add_query = λ m q. refl;
  parts-set_op_code_query = λ m. refl;
  parts-set_recursion_desired = λ m on. refl;
  parts-with_edns = λ m payload version. refl;
}

abbrev key_parts : QueryKey toy_hickory → Text × (ℕ × ℕ)
key_parts k = (k.query_name, (k.query_type, k.query_class))

abbrev parts_key : Text × (ℕ × ℕ) → QueryKey toy_hickory
parts_key (a, (b, c)) = record { query_name = a; query_type = b; query_class = c }

abbrev pair_discrete : {A B : Type 0} → Discrete A → Discrete B → Discrete (A × B)
pair_discrete da db (a, b) (a', b') = elim (da a a') [
  | no n ↦ no (λ e. n (ap (λ p. p.0) e))
  | yes e ↦ elim (db b b') [
    | no n ↦ no (λ e'. n (ap (λ p. p.1) e'))
    | yes e' ↦ yes (λ i. (e i, e' i))
  ]
]

abbrev pub request_discrete : Discrete (Request toy_hickory)
request_discrete =
    retract_discrete (λ r. r.keys) (λ ks. record { keys = ks }) (λ r. refl)
      (List-discrete (
        retract_discrete key_parts parts_key (λ k. refl)
          (pair_discrete (List-discrete ℕ_discrete) (pair_discrete ℕ_discrete ℕ_discrete))))
