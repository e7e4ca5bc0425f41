-- ===== src/Cache/Threads.antt =====
-- dap-lib/src/doh_client/cache.rs under concurrency: `put` takes the lock three times, for the size,
-- for the eviction and for the insertion, and other tasks may come in between.
pub mod Bounds
use doh_auth_proxy.Prelude.{
  ℕ, ◌<◌, ◌≡◌, none, some, List, [], ◌∷◌, if◌then◌else◌, leb, Change, weight,
}
use doh_auth_proxy.Hickory.{Hickory}
use doh_auth_proxy.Dns.{Request}
use doh_auth_proxy.Cache.{Cache, CacheObject, size, get}
use doh_auth_proxy.Cache.Linked.{LinkedHashMap}

module _ {H : Hickory} {dec : Discrete (Request H)}
    (L : LinkedHashMap (Request H) (CacheObject H) dec) where
  -- Where a `put` is: before the test of the size, before `pop_front`, before `insert`, or done.
  pub data Phase : Type 0 where
    checking evicting storing : Request H → CacheObject H → Phase
    done : Phase

  pub record Shared : Type 0 where
    pub cache : Cache H L
    pub tasks : List Phase

  abbrev pub live : Phase → ℕ
  live done = 0
  live _ = 1

  abbrev pub about_to_store : Phase → ℕ
  about_to_store (storing key o) = 1
  about_to_store _ = 0

  -- After the test of the size.
  abbrev pub tested : Cache H L → Request H → CacheObject H → Phase
  tested c key o = if leb c.max_size (size H L c) then evicting key o else storing key o

  -- The atomic steps, with at most `most` calls of `put` at a time.
  pub data Step (most : ℕ) : Shared → Shared → Type 0 where
    enter :
        {c : Cache H L} {l : List Phase} (key : Request H) (o : CacheObject H)
        → weight live l < most
        → Step most
            (record { cache = c; tasks = l })
            (record { cache = c; tasks = checking key o ∷ l })
    test :
        {c : Cache H L} {l l' : List Phase} (key : Request H) (o : CacheObject H)
        → Change (checking key o) (tested c key o) l l'
        → Step most (record { cache = c; tasks = l }) (record { cache = c; tasks = l' })
    evict :
        {c : Cache H L} {l l' : List Phase} (key : Request H) (o : CacheObject H) (m : L.Map)
        → L.pop_front c.cache ≡ some m
        → Change (evicting key o) (storing key o) l l'
        → Step most
            (record { cache = c; tasks = l })
            (record { cache = record c { cache = m }; tasks = l' })
    fail :
        {c : Cache H L} {l l' : List Phase} (key : Request H) (o : CacheObject H)
        → L.pop_front c.cache ≡ none
        → Change (evicting key o) done l l'
        → Step most (record { cache = c; tasks = l }) (record { cache = c; tasks = l' })
    store :
        {c : Cache H L} {l l' : List Phase} (key : Request H) (o : CacheObject H)
        → Change (storing key o) done l l'
        → Step most
            (record { cache = c; tasks = l })
            (record { cache = record c { cache = L.insert c.cache key o }; tasks = l' })
    -- a `get` holds the lock all along
    read :
        {c : Cache H L} {l : List Phase} (now : ℕ) (key : Request H)
        → Step most
            (record { cache = c; tasks = l })
            (record { cache = (get H L now c key).0; tasks = l })
    -- one removal of `purge_expired_entries`
    purge :
        {c : Cache H L} {l : List Phase} (key : Request H)
        → Step most
            (record { cache = c; tasks = l })
            (record { cache = record c { cache = L.remove_entry c.cache key }; tasks = l })

  pub data Run (most : ℕ) (s : Shared) : Shared → Type 0 where
    stay : Run most s s
    more : {t u : Shared} → Run most s t → Step most t u → Run most s u
