-- ===== src/Hickory.antt =====
-- What the program takes from hickory_proto: DNS messages with their accessors and setters. The
-- crate is not part of the repository, so its types and operations are the fields of a record, and
-- its laws say what the crate documents: a setter changes its own part of the message alone.
use doh_auth_proxy.Prelude.{ℕ, ◌≡◌, true, false, Option, none, some, is_empty, List, [], ◌∷◌, ◌++◌}
use doh_auth_proxy.Text.{Text}

pub data MessageType : Type 0 where
  query response : MessageType

-- The parts of a message that the program reads or writes.
pub record MessageParts (Query Record ResponseCode : Type 0) : Type 0 where
  pub id : ℕ
  pub message_type : MessageType
  pub response_code : ResponseCode
  pub queries : List Query
  pub answers : List Record
  pub additionals : List Record
  pub name_servers : List Record

pub record Hickory : Type 1 where
  pub Message : Type 0
  pub Query : Type 0
  pub Record : Type 0
  pub RData : Type 0
  pub Name : Type 0
  pub RecordType : Type 0
  pub DnsClass : Type 0
  pub ResponseCode : Type 0
  pub no_error : ResponseCode
  pub nx_domain : ResponseCode
  pub code_discrete : Discrete ResponseCode
  pub type_a : RecordType
  pub type_aaaa : RecordType
  pub type_discrete : Discrete RecordType
  pub class_in : DnsClass
  pub class_discrete : Discrete DnsClass
  -- the ranks by which `Ord` sorts types and classes
  pub type_rank : RecordType → ℕ
  pub class_rank : DnsClass → ℕ
  pub parts : Message → MessageParts Query Record ResponseCode
  pub from_bytes : List ℕ → Option Message
  pub to_bytes : Message → Option (List ℕ)
  pub set_id : Message → ℕ → Message
  pub set_message_type : Message → MessageType → Message
  pub set_response_code : Message → ResponseCode → Message
  pub take_answers : Message → List Record × Message
  pub take_additionals : Message → List Record × Message
  pub take_name_servers : Message → List Record × Message
  pub add_answer : Message → Record → Message
  pub add_additional : Message → Record → Message
  pub add_name_server : Message → Record → Message
  -- `none` where the call panics
  pub insert_answers : Message → List Record → Option Message
  pub query_name : Query → Name
  pub query_type : Query → RecordType
  pub query_class : Query → DnsClass
  pub name_to_string : Name → Text
  pub name_from_str : Text → Option Name
  pub ttl : Record → ℕ
  pub set_ttl : Record → ℕ → Record
  pub record_data : Record → Option RData
  pub from_rdata : Name → ℕ → RData → Record
  pub rdata_a : ℕ → RData
  pub rdata_aaaa : ℕ → RData
  pub parts-set_id : (m : Message) (n : ℕ) → parts (set_id m n) ≡ record (parts m) { id = n }
  pub parts-set_message_type :
      (m : Message) (t : MessageType)
      → parts (set_message_type m t) ≡ record (parts m) { message_type = t }
  pub parts-set_response_code :
      (m : Message) (c : ResponseCode)
      → parts (set_response_code m c) ≡ record (parts m) { response_code = c }
  pub take_answers_lem : (m : Message) → (take_answers m).0 ≡ (parts m).answers
  pub parts-take_answers :
      (m : Message) → parts (take_answers m).1 ≡ record (parts m) { answers = [] }
  pub take_additionals_lem : (m : Message) → (take_additionals m).0 ≡ (parts m).additionals
  pub parts-take_additionals :
      (m : Message) → parts (take_additionals m).1 ≡ record (parts m) { additionals = [] }
  pub take_name_servers_lem : (m : Message) → (take_name_servers m).0 ≡ (parts m).name_servers
  pub parts-take_name_servers :
      (m : Message) → parts (take_name_servers m).1 ≡ record (parts m) { name_servers = [] }
  pub parts-add_answer :
      (m : Message) (r : Record)
      → parts (add_answer m r) ≡ record (parts m) { answers = (parts m).answers ++ r ∷ [] }
  pub parts-add_additional :
      (m : Message) (r : Record)
      → parts (add_additional m r)
        ≡ record (parts m) { additionals = (parts m).additionals ++ r ∷ [] }
  pub parts-add_name_server :
      (m : Message) (r : Record)
      → parts (add_name_server m r)
        ≡ record (parts m) { name_servers = (parts m).name_servers ++ r ∷ [] }
  pub insert_answers_lem :
      (m : Message) (rs : List Record)
      → is_empty (parts m).answers ≡ true
      → (m' : Message) × (insert_answers m rs ≡ some m')
        × (parts m' ≡ record (parts m) { answers = rs })
  pub insert_answers_panics :
      (m : Message) (rs : List Record)
      → is_empty (parts m).answers ≡ false
      → insert_answers m rs ≡ none
  pub ttl-set_ttl : (r : Record) (n : ℕ) → ttl (set_ttl r n) ≡ n
  pub record_data-set_ttl : (r : Record) (n : ℕ) → record_data (set_ttl r n) ≡ record_data r
  pub ttl-from_rdata : (name : Name) (n : ℕ) (d : RData) → ttl (from_rdata name n d) ≡ n
  pub record_data-from_rdata :
      (name : Name) (n : ℕ) (d : RData) → record_data (from_rdata name n d) ≡ some d
