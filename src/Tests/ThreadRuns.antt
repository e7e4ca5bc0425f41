-- ===== src/Tests/ThreadRuns.antt =====
-- Interleaved operations of the counter and of the cache, and a run of the cache against its
-- specification.
use doh_auth_proxy.Prelude.{
  ℕ, ◌+◌, ◌%◌, ◌≤◌, ◌<◌, ◌≡◌, ◌≢◌, refl, ap, none, List, [], ◌∷◌, arith, first, length,
}
use doh_auth_proxy.Dns.{Request}
use doh_auth_proxy.Cache.{Cache, CacheObject, new}
use doh_auth_proxy.Cache.Put.{contents}
use doh_auth_proxy.Cache.Refines.{
  Op, store, fetch, sweep, answers, store_answers, MissOrSame, answers-new,
}
use doh_auth_proxy.Cache.Threads
use doh_auth_proxy.Cache.Threads.Bounds.{Run-bounded, two_puts_exceed}
use doh_auth_proxy.Proxy.Threads.{
  Counting, loaded, Run, stay, more, enter, load, in_flight, idle, Run-counts, lost_decrements,
}
use doh_auth_proxy.Proxy.Counter.{usize_mod}
use doh_auth_proxy.Tests.Message.{toy_hickory, toy_answer}
use doh_auth_proxy.Tests.CacheRuns.{entries_map}

abbrev one_task : Counting
one_task = record { cnt = (0 + 1) % usize_mod; tasks = loaded 1 ∷ [] }

entered : Run idle 2 one_task
entered = more (more stay enter) (load first)

Run-counts_example : (in_flight one_task ≤ one_task.cnt) × (one_task.cnt ≤ 2)
Run-counts_example = Run-counts entered (omega arith)

lost_decrements_example : (k : ℕ) × (s : Counting) × Run idle k s × (s.cnt ≡ 3) × (in_flight s ≡ 0)
lost_decrements_example = lost_decrements 3 (omega arith)

abbrev key : ℕ → Request toy_hickory
key n = record { keys = record { query_name = n ∷ []; query_type = 1; query_class = 1 } ∷ [] }

abbrev object : CacheObject toy_hickory
object = record { message = toy_answer 5 60 9; create_at = 0; expire_at = 60 }

abbrev empty : Cache toy_hickory entries_map
empty = record { cache = []; max_size = 1 }

abbrev first_char : Request toy_hickory → ℕ
first_char r = elim r.keys [ [] ↦ 0 | k ∷ ks ↦ elim k.query_name [ [] ↦ 0 | n ∷ ns ↦ n ] ]

apart : key 1 ≢ key 2
apart e = let n = ap first_char e in omega (arith, n)

two_puts_exceed_example :
    (t : Threads.Shared entries_map) × Threads.Run entries_map 2
      (record { cache = empty; tasks = [] })
      t
    × (t.tasks ≡ Threads.done ∷ Threads.done ∷ [])
    × (length (contents entries_map t.cache) ≡ 2)
two_puts_exceed_example =
    two_puts_exceed entries_map empty (key 1) (key 2) object object refl tt tt apart

abbrev one_put : Threads.Shared entries_map
one_put = record { cache = empty; tasks = Threads.checking (key 1) object ∷ [] }

Run-bounded_example : length (contents entries_map one_put.cache) < 1 + 2
Run-bounded_example =
    Run-bounded entries_map {most = 2} {s = record { cache = empty; tasks = [] }} {t = one_put}
      (Threads.more Threads.stay (Threads.enter (key 1) object (omega arith))) (omega arith)
      (omega arith) refl (omega arith)

-- Two responses, and one of them again after it has expired.
abbrev calls : List (Op toy_hickory entries_map)
calls =
    store 0 (key 1) (toy_answer 5 60 9)
    ∷ store 0 (key 2) (toy_answer 6 60 8)
    ∷ fetch 7 (key 1)
    ∷ fetch 8 (key 2)
    ∷ sweep 9
    ∷ fetch 70_000_000_000 (key 2)
    ∷ []

answers-new_example :
    MissOrSame toy_hickory entries_map
      (answers toy_hickory entries_map (new toy_hickory entries_map 1) calls)
      (store_answers toy_hickory entries_map (λ k. none) calls)
answers-new_example = answers-new toy_hickory entries_map 1 calls (omega arith)
