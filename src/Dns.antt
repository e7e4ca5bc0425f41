-- ===== src/Dns.antt =====
-- dap-lib/src/doh_client/dns_message.rs: the key of a query, and the building of messages.
pub mod Order
pub mod BuildQuery
pub mod Laws
use Prim.Native.Nat.{compare, Ordering}
use doh_auth_proxy.Prelude.{
  ℕ, Bool, true, false, List, [], ◌∷◌, map, Outcome, ok, err, ◌>>=◌, other, if◌then◌else◌, is_empty,
  ok_or, unwrap,
}
use doh_auth_proxy.Text.{Text, to_ascii_lowercase}
use doh_auth_proxy.Globals.{IpAddr, v4, v6}
use doh_auth_proxy.Hickory.{Hickory, MessageType, query, response}

-- `Ordering::then`.
abbrev then_cmp : Ordering → Ordering → Ordering
then_cmp Ordering.eq o = o
then_cmp Ordering.lt o = Ordering.lt
then_cmp Ordering.gt o = Ordering.gt

-- `str::cmp`. UTF-8 keeps the order of the code points.
unfoldable pub text_cmp : Text → Text → Ordering
text_cmp [] [] = Ordering.eq
text_cmp [] (y ∷ ys) = Ordering.lt
text_cmp (x ∷ xs) [] = Ordering.gt
text_cmp (x ∷ xs) (y ∷ ys) = then_cmp (compare x y) (text_cmp xs ys)

abbrev is_type : MessageType → MessageType → Bool
is_type query query = true
is_type query response = false
is_type response query = false
is_type response response = true

-- `Ord` keeps the order of equal keys and puts the smaller first: the standard library's stable sort.
module _ {ℓ} {A : Type ℓ} (cmp : A → A → Ordering) where
  abbrev pub not_after : A → A → Bool
  not_after a b = elim (cmp a b) [ Ordering.gt ↦ false | _ ↦ true ]

  unfoldable pub insert_sorted : A → List A → List A
  insert_sorted a [] = a ∷ []
  insert_sorted a (b ∷ bs) = if not_after a b then a ∷ b ∷ bs else b ∷ insert_sorted a bs

  unfoldable pub sort : List A → List A
  unfolding insert_sorted
  sort [] = []
  sort (a ∷ as') = insert_sorted a (sort as')

module _ (H : Hickory) where
  open H use {Message, Query, Name, RecordType, DnsClass}

  pub record QueryKey : Type 0 where
    pub query_name : Text
    pub query_type : RecordType
    pub query_class : DnsClass

  -- A sorted list of query keys.
  pub record Request : Type 0 where
    pub keys : List QueryKey

  -- The derived order of `QueryKey`: by name, then type, then class.
  unfoldable pub key_cmp : QueryKey → QueryKey → Ordering
  unfolding text_cmp
  key_cmp a b = then_cmp (text_cmp a.query_name b.query_name) (
      then_cmp (compare (H.type_rank a.query_type) (H.type_rank b.query_type))
        (compare (H.class_rank a.query_class) (H.class_rank b.query_class)))

  unfoldable pub key_of : Query → QueryKey
  unfolding to_ascii_lowercase
  key_of q = record {
    query_name = to_ascii_lowercase (H.name_to_string (H.query_name q));
    query_type = H.query_type q;
    query_class = H.query_class q;
  }

  -- `Request::try_from`.
  unfoldable pub request_try_from : Message → Outcome Request
  unfolding key_of key_cmp sort
  request_try_from m =
      if is_empty (H.parts m).queries
      then err other
      else ok (record { keys = sort key_cmp (map key_of (H.parts m).queries) })

  unfoldable pub decode : List ℕ → Outcome Message
  decode packet_buf = ok_or other (H.from_bytes packet_buf)

  unfoldable pub encode : Message → Outcome (List ℕ)
  encode m = ok_or other (H.to_bytes m)

  -- `is`.
  unfoldable pub has_type : List ℕ → MessageType → Outcome Message
  unfolding decode
  has_type packet_buf mtype = do
    msg ← decode packet_buf
    if is_type (H.parts msg).message_type mtype then ok msg else err other

  unfoldable pub is_query : List ℕ → Outcome Message
  unfolding has_type
  is_query packet_buf = has_type packet_buf query

  unfoldable pub is_response : List ℕ → Outcome Message
  unfolding has_type
  is_response packet_buf = has_type packet_buf response

  unfoldable pub build_response_nx : Message → Message
  build_response_nx msg = H.set_response_code (H.set_message_type msg response) H.nx_domain

  abbrev pub rdata_of : IpAddr → H.RData
  rdata_of (v4 a) = H.rdata_a a
  rdata_of (v6 a) = H.rdata_aaaa a

  unfoldable pub build_response_given_ipaddr : Message → QueryKey → IpAddr → ℕ → Outcome Message
  build_response_given_ipaddr msg q_key ipaddr min_ttl = do
    let res = H.set_response_code (H.set_message_type msg response) H.no_error
    name ← ok_or other (H.name_from_str q_key.query_name)
    unwrap (H.insert_answers res (H.from_rdata name min_ttl (rdata_of ipaddr) ∷ []))
