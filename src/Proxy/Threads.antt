-- ===== src/Proxy/Threads.antt =====
-- dap-lib/src/proxy/counter.rs under concurrency: the counter of one type, and the tasks that serve
-- queries of that type. A step is one atomic operation on the counter; the total, which nothing
-- but the log reads, is left out.
use doh_auth_proxy.Prelude.{
  ℕ, zero, suc, ◌+◌, ◌-◌, ◌%◌, ◌≤◌, ◌<◌, ◌≡◌, refl, subst, List, [], ◌∷◌, arith, ◌&&◌, ◌==◌,
  if◌then◌else◌, ltb, Change, first, later, weight, weight-Change,
}
use doh_auth_proxy.Proxy.Counter.{usize_mod}

-- Where a task is: serving, or in `decrement` after its load with the value loaded, or done.
pub data Phase : Type 0 where
  serving : Phase
  loaded : ℕ → Phase
  done : Phase

pub record Counting : Type 0 where
  pub cnt : ℕ
  pub tasks : List Phase

-- `compare_exchange(cnt, cnt - 1)` under `cnt > 0`.
abbrev pub exchange : ℕ → ℕ → ℕ
exchange v cnt = if ltb 0 v && cnt == v then v - 1 else cnt

pub data Step : Counting → Counting → Type 0 where
  -- `fetch_add(1)` of `increment`
  enter :
      {c : ℕ} {l : List Phase}
      → Step
          (record { cnt = c; tasks = l })
          (record { cnt = (c + 1) % usize_mod; tasks = serving ∷ l })
  -- `load` of `decrement`
  load :
      {c : ℕ} {l l' : List Phase}
      → Change serving (loaded c) l l'
      → Step (record { cnt = c; tasks = l }) (record { cnt = c; tasks = l' })
  leave :
      {c v : ℕ} {l l' : List Phase}
      → Change (loaded v) done l l'
      → Step (record { cnt = c; tasks = l }) (record { cnt = exchange v c; tasks = l' })

-- So many steps from one state to another.
pub data Run (s : Counting) : ℕ → Counting → Type 0 where
  stay : Run s 0 s
  more : {n : ℕ} {t u : Counting} → Run s n t → Step t u → Run s (suc n) u

abbrev live : Phase → ℕ
live serving = 1
live (loaded v) = 1
live done = 0

-- The tasks that still serve a query.
abbrev pub in_flight : Counting → ℕ
in_flight s = weight live s.tasks

abbrev pub idle : Counting
idle = record { cnt = 0; tasks = [] }

Step-counts :
    {s t : Counting} (n : ℕ)
    → Step s t
    → n + 1 < usize_mod
    → (in_flight s ≤ s.cnt) × (s.cnt ≤ n)
    → (in_flight t ≤ t.cnt) × (t.cnt ≤ suc n)
Step-counts n enter b (lo, hi) = (ground arith, ground arith)
Step-counts n (load c) b (lo, hi) = (omega (arith, weight-Change live c), omega arith)
Step-counts n (leave c) b (lo, hi) = (ground (arith, weight-Change live c), ground arith)

-- However the steps of fewer than 2 ^ 64 - 1 operations are interleaved, the counter is at least
-- the number of tasks that still serve a query, and at most the number of steps.
pub Run-counts :
    {n : ℕ} {s : Counting} → Run idle n s → n + 1 < usize_mod → (in_flight s ≤ s.cnt) × (s.cnt ≤ n)
Run-counts stay b = (omega arith, omega arith)
Run-counts (more {n} r st) b = Step-counts n st (omega arith) (Run-counts r (omega arith))

at : ℕ → List Phase → Counting
at c l = record { cnt = c; tasks = l }

enter_at : (n : ℕ) (l : List Phase) → n + 1 < usize_mod → Step (at n l) (at (suc n) (serving ∷ l))
unfolding at
enter_at n l b =
    let e : (n + 1) % usize_mod ≡ suc n = omega arith in
    subst (λ k. Step (record { cnt = n; tasks = l }) (record { cnt = k; tasks = serving ∷ l })) e
      enter

leave_at :
    (v c c' : ℕ) (l l' : List Phase)
    → exchange v c ≡ c'
    → Change (loaded v) done l l'
    → Step (at c l) (at c' l')
unfolding at
leave_at v c c' l l' e ch =
    subst (λ k. Step (record { cnt = c; tasks = l }) (record { cnt = k; tasks = l' })) e (leave ch)

load_at : (c : ℕ) (l l' : List Phase) → Change serving (loaded c) l l' → Step (at c l) (at c l')
unfolding at
load_at c l l' ch = load ch

-- Two tasks that both load before either exchanges: the second exchange fails, and one stays.
two_tasks :
    {k : ℕ} (n : ℕ) (l : List Phase)
    → n + 2 < usize_mod
    → Run idle k (at n l)
    → Run idle (suc (suc (suc (suc (suc (suc k)))))) (at (suc n) (done ∷ done ∷ l))
two_tasks n l b r =
    let n2 : ℕ = suc (suc n) in
    let r1 = more r (enter_at n l (omega arith)) in
    let r2 = more r1 (enter_at (suc n) (serving ∷ l) (omega arith)) in
    let r3 = more r2 (load_at n2 (serving ∷ serving ∷ l) (loaded n2 ∷ serving ∷ l) first) in
    let r4 =
      more r3 (load_at n2 (loaded n2 ∷ serving ∷ l) (loaded n2 ∷ loaded n2 ∷ l) (later first)) in
    let r5 = more r4 (
      leave_at n2 n2 (suc n) (loaded n2 ∷ loaded n2 ∷ l) (done ∷ loaded n2 ∷ l) (ground arith)
        first) in
    more r5 (
      leave_at n2 (suc n) (suc n) (done ∷ loaded n2 ∷ l) (done ∷ done ∷ l) (ground arith)
        (later first))

-- Every number below 2 ^ 64 - 2 can be left in the counter by tasks that have all come to an end,
-- since an exchange that another task overtakes is not tried again.
pub lost_decrements :
    (n : ℕ)
    → n + 2 < usize_mod
    → (k : ℕ) × (s : Counting) × Run idle k s × (s.cnt ≡ n) × (in_flight s ≡ 0)
unfolding at
lost_decrements n b = let (k, l, r, none) = rounds n b in (k, at n l, r, refl, none)
  where
    rounds :
        (n : ℕ)
        → n + 2 < usize_mod
        → (k : ℕ) × (l : List Phase) × Run idle k (at n l) × (weight live l ≡ 0)
    rounds zero b = (0, [], stay, refl)
    rounds (suc n) b =
        let (k, l, r, none) = rounds n (omega arith) in
        (
          suc (suc (suc (suc (suc (suc k))))),
          done ∷ done ∷ l,
          two_tasks n l (omega arith) r,
          omega (arith, none),
        )
