-- ===== src/Cache.antt =====
-- dap-lib/src/doh_client/cache.rs: the cache of DNS responses. An instant and a duration are
-- numbers of nanoseconds; all readings of the clock in one operation give the same instant `now`.
pub mod Linked
pub mod Put
pub mod Get
pub mod Purge
pub mod Threads
pub mod Refines
pub mod Response
use doh_auth_proxy.Prelude.{
  ℕ, ◌+◌, ◌-◌, ◌*◌, ◌/◌, ◌%◌, ◌^◌, min, Bool, not, ◌||◌, Option, none, some, List, [], ◌∷◌, map,
  Outcome, ok, err, panic, other, if◌then◌else◌, is_yes, ltb, leb, ◌==◌, filter,
}
use doh_auth_proxy.Hickory.{Hickory}
use doh_auth_proxy.Dns.{Request, encode}
use Linked.{LinkedHashMap}

-- `Duration::from_secs` and `Duration::as_secs`.
abbrev pub from_secs : ℕ → ℕ
from_secs n = n * 1_000_000_000

abbrev pub as_secs : ℕ → ℕ
as_secs d = d / 1_000_000_000

-- `iter().min().unwrap_or(0)`.
abbrev pub min_or_zero : List ℕ → ℕ
min_or_zero [] = 0
min_or_zero (x ∷ []) = x
min_or_zero (x ∷ y ∷ l) = min x (min_or_zero (y ∷ l))

module _ (H : Hickory) where
  open H use {Message, Record, parts}

  pub record CacheObject : Type 0 where
    pub message : Message
    pub create_at : ℕ
    pub expire_at : ℕ

  abbrev pub expired : ℕ → CacheObject → Bool
  expired now o = ltb o.expire_at now

  -- `saturating_duration_since`.
  abbrev pub remained_ttl : ℕ → CacheObject → ℕ
  remained_ttl now o = o.expire_at - now

  -- A loop that adds the records of a section again, each with a new TTL.
  add_all : (Message → Record → Message) → ℕ → Message → List Record → Message
  add_all add ttl m [] = m
  add_all add ttl m (r ∷ rs) = add_all add ttl (add m (H.set_ttl r ttl)) rs

  unfoldable pub refresh : ℕ → Message → Message
  unfolding add_all
  refresh ttl m0 =
      let (answers, m1) = H.take_answers m0 in
      let m2 = add_all H.add_answer ttl m1 answers in
      let (additionals, m3) = H.take_additionals m2 in
      let m4 = add_all H.add_additional ttl m3 additionals in
      let (name_servers, m5) = H.take_name_servers m4 in
      add_all H.add_name_server ttl m5 name_servers

  -- The message of `build_response`, before it is encoded; `as u32` wraps around.
  unfoldable pub response_message : ℕ → CacheObject → ℕ → Message
  unfolding refresh
  response_message now o query_id =
      H.set_id (refresh (as_secs (remained_ttl now o) % 2 ^ 32) o.message) query_id

  unfoldable pub build_response : ℕ → CacheObject → ℕ → Outcome (List ℕ)
  unfolding response_message
  build_response now o query_id = encode H (response_message now o query_id)

  unfoldable pub is_cacheable : Message → Bool
  is_cacheable m =
      is_yes (H.code_discrete (parts m).response_code H.no_error)
      || is_yes (H.code_discrete (parts m).response_code H.nx_domain)

  unfoldable pub min_ttl : Message → ℕ
  min_ttl m = min_or_zero (map H.ttl (parts m).answers)

  unfoldable pub cache_object : ℕ → Message → CacheObject
  unfolding min_ttl
  cache_object now m = record {
    message = H.set_id m 0;
    create_at = now;
    expire_at = now + from_secs (min_ttl m);
  }

  module _ {dec : Discrete (Request H)} (L : LinkedHashMap (Request H) CacheObject dec) where
    open L use {Map}

    pub record Cache : Type 0 where
      pub cache : Map
      pub max_size : ℕ

    unfoldable pub new : ℕ → Cache
    new max_size = record { cache = L.new_map; max_size = max_size }

    unfoldable pub size : Cache → ℕ
    size c = L.len c.cache

    -- The entry in front makes room, if the cache is full.
    make_room : Cache → Outcome Cache
    unfolding size
    make_room c =
        if leb c.max_size (size c)
        then elim (L.pop_front c.cache) [ none ↦ err other | some m ↦ ok (record c { cache = m }) ]
        else ok c

    insert_after : Cache → Request H → CacheObject → Outcome Cache → Cache × Outcome (Unit {0})
    insert_after c key o (ok c') = (record c' { cache = L.insert c'.cache key o }, ok tt)
    insert_after c key o (err e) = (c, err e)
    insert_after c key o panic = (c, panic)

    unfoldable pub put : ℕ → Cache → Request H → Message → Cache × Outcome (Unit {0})
    unfolding make_room insert_after is_cacheable min_ttl cache_object
    put now c key m =
        if not (is_cacheable m)
        then (c, ok tt)
        else if min_ttl m == 0
        then (c, ok tt)
        else insert_after c key (cache_object now m) (make_room c)

    unfoldable pub get : ℕ → Cache → Request H → Cache × Option CacheObject
    get now c key = elim (L.find c.cache key) [
      | none ↦ (c, none)
      | some o ↦
          let moved = L.to_back c.cache key in
          if not (expired now o)
          then (record c { cache = moved }, some o)
          else (record c { cache = L.remove_entry moved key }, none)
    ]

    -- The loop of `purge_expired_entries` over the expired entries of the copy.
    purge_loop : Cache → ℕ → List (Request H × CacheObject) → Cache × ℕ
    purge_loop c count [] = (c, count)
    purge_loop c count (e ∷ es) =
        purge_loop (record c { cache = L.remove_entry c.cache e.0 }) (count + 1) es

    unfoldable pub purge_expired_entries : ℕ → Cache → Cache × ℕ
    unfolding purge_loop
    purge_expired_entries now c =
        purge_loop c 0
          (filter (λ (e : Request H × CacheObject). expired now e.1) (L.entries c.cache))
