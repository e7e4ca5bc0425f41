-- ===== src/Path/Choose.antt =====
-- What `DoHPathManager::get_path` and `targets` return, and that neither panics.
use doh_auth_proxy.Prelude.{
  ℕ, zero, suc, ◌≡◌, refl, ap, ◌<◌, inl, inr, Bool, true, false, Option, none, some, List, [], ◌∷◌,
  Memᴰ, ok, ◌>>=◌, arith, if◌then◌else◌, Bool-cases, is_empty, length, get_elem?-lt, All-mem,
  traverse,
}
use doh_auth_proxy.Path.{
  DohTarget, DohPath, DohPathManager, prune, at_index, gen_range, choose_from, get_path, targets,
}
use doh_auth_proxy.Path.Loops.{Listed, HasNoEmpty, Listed-prune, prune-HasNoEmpty}

-- What a draw of `gen_range(0..n)` promises: a number below `n`.
abbrev pub IsDraw : (ℕ → ℕ → ℕ) → Type 0
IsDraw draw = (i n : ℕ) → 0 < n → draw i n < n

abbrev IsNonempty {ℓ} : {A : Type ℓ} → List A → Type 0
IsNonempty xs = 0 < length xs

length_of_is_empty {ℓ} : {A : Type ℓ} (xs : List A) → is_empty xs ≡ false → 0 < length xs
length_of_is_empty [] h = cc
length_of_is_empty (x ∷ xs) h = omega arith

at_index_lem {ℓ} :
    {A : Type ℓ} (xs : List A) (i : ℕ)
    → i < length xs
    → (x : A) × (at_index xs i ≡ ok x) × Memᴰ x xs
at_index_lem xs i h = let (x, e, m) = get_elem?-lt xs i h in (x, rw e, m)

-- What a chosen path has to be: none, if no path is healthy, and else a healthy one of the list.
pub data IsChoice (paths : List (List (List DohPath))) : Option DohPath → Type 0 where
  nothing : ((p : DohPath) → Listed p paths → p.is_healthy ≡ false) → IsChoice paths none
  chosen : {p : DohPath} → Listed p paths → p.is_healthy ≡ true → IsChoice paths (some p)

empty_no_mem {ℓ} : {A : Type ℓ} {a : A} (xs : List A) → is_empty xs ≡ true → Memᴰ a xs → ⊥
empty_no_mem [] h m = elim m [ ]
empty_no_mem (x ∷ xs) h m = cc

module _ (draw : ℕ → ℕ → ℕ) (d : IsDraw draw) where
  gen_range_lem : (k n : ℕ) → 0 < n → (i : ℕ) × (gen_range draw k n ≡ ok i) × (i < n)
  gen_range_lem k zero h = absurd (omega arith)
  gen_range_lem k (suc n) h = (draw k (suc n), ground arith, d k (suc n) h)

  choose_index :
      (b : Bool) (k n : ℕ)
      → 0 < n
      → (i : ℕ) × ((if b then gen_range draw k n else ok 0) ≡ ok i) × (i < n)
  choose_index true k n h = gen_range_lem k n h
  choose_index false k n h = (0, refl, h)

  choose_from_lem :
      (pm : DohPathManager) (paths : List (List (List DohPath)))
      → HasNoEmpty paths
      → is_empty paths ≡ false
      → (p : DohPath) × (choose_from draw pm paths ≡ ok p) × Listed p paths
  unfolding choose_from
  choose_from_lem pm paths full some_target =
      let (i, ei, li) =
        choose_index pm.target_randomization 0 (length paths)
          (length_of_is_empty paths some_target) in
      let (t, et, mt) = at_index_lem paths i li in
      let (some_hop, hops) = All-mem _ paths mt full in
      let (j, ej, lj) =
        choose_index pm.nexthop_randomization 1 (length t) (length_of_is_empty t some_hop) in
      let (h, eh, mh) = at_index_lem t j lj in
      let (k, ek, lk) = gen_range_lem 2 (length h) (length_of_is_empty h (All-mem _ t mh hops)) in
      let (p, ep, mp) = at_index_lem h k lk in
      (p, rw (ei, et, ej, eh, ek, ep) refl, (t, h, mt, mh, mp))

  not-Listed_of_empty :
      (pm : DohPathManager) (p : DohPath)
      → is_empty (prune (λ (q : DohPath). q.is_healthy) pm.paths) ≡ true
      → Listed p pm.paths
      → p.is_healthy ≡ false
  not-Listed_of_empty pm p e l = elim (Bool-cases p.is_healthy) [
    | inl healthy ↦
        let (t, _, m, _, _) =
          (Listed-prune (λ (q : DohPath). q.is_healthy) pm.paths).1 (l, healthy) in
        absurd (empty_no_mem _ e m)
    | inr ill ↦ ill
  ]

  -- With draws in range `get_path` does not panic and does not fail. It returns no path only if
  -- no listed path is healthy, and otherwise one of the listed paths that is healthy.
  pub get_path-IsChoice :
      (pm : DohPathManager) → (r : Option DohPath) × (get_path draw pm ≡ ok r) × IsChoice pm.paths r
  unfolding get_path
  get_path-IsChoice pm = elim (Bool-cases (is_empty healthy)) [
    | inl none_left ↦
        (none, rw none_left, IsChoice.nothing (λ p l. not-Listed_of_empty pm p none_left l))
    | inr some_left ↦
        let (p, e, l) = choose_from_lem pm healthy (prune-HasNoEmpty _ pm.paths) some_left in
        let (listed, ok_flag) = (Listed-prune (λ (q : DohPath). q.is_healthy) pm.paths).0 l in
        (some p, rw (some_left, e), IsChoice.chosen listed ok_flag)
  ]
    where
      healthy : List (List (List DohPath))
      healthy = prune (λ (q : DohPath). q.is_healthy) pm.paths

-- Where no group is empty, `targets` does not panic and gives one target for each group.
pub targets_lem :
    (pm : DohPathManager)
    → HasNoEmpty pm.paths
    → (ts : List DohTarget) × (targets pm ≡ ok ts) × (length ts ≡ length pm.paths)
unfolding targets
targets_lem pm full = go pm.paths full
  where
    go :
        (paths : List (List (List DohPath)))
        → HasNoEmpty paths
        → (ts : List DohTarget) × (traverse
              (λ per_target.
                at_index per_target 0 >>= λ hop. at_index hop 0 >>= λ (p : DohPath). ok p.target)
              paths
            ≡ ok ts)
          × (length ts ≡ length paths)
    go [] h = ([], refl, refl)
    go ([] ∷ ps) ((e, _), h) = cc
    go (([] ∷ hs) ∷ ps) ((e, (f, _)), h) = cc
    go (((p ∷ qs) ∷ hs) ∷ ps) (_, h) = let (ts, e, l) = go ps h in (p.target ∷ ts, rw e, ap suc l)
