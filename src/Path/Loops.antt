-- ===== src/Path/Loops.antt =====
-- When a path has a loop, and which groups and paths `prune` keeps.
use doh_auth_proxy.Prelude.{
  ◌≡◌, refl, sym, ◌≢◌, ◌↔◌, inl, inr, Bool, true, false, not, List, [], ◌∷◌, ◌++◌, map, Memᴰ, arith,
  Bool-cases, is_empty, filter, any, All, All-append, All-of_append, mem-filter, mem_of_mem-filter,
  mem-map, mem_of_mem-map, subst, All-filter, All-filter_of_All, All-zip, All-map, All-of_mem,
}
use doh_auth_proxy.Text.{Text, text_eq, text_eq_refl, eq_of_text_eq}
use doh_auth_proxy.Path.{DohRelay, DohPath, looped_from, is_looped, prune}

-- No two of the texts are the same.
abbrev pub Distinct : List Text → Type 0
Distinct [] = Unit
Distinct (x ∷ xs) = All (λ y. x ≢ y) xs × Distinct xs

-- The authorities of a path, the target's first.
abbrev pub authorities : DohPath → List Text
authorities p = p.target.authority ∷ map (λ (r : DohRelay). r.authority) p.relays

any-eq_sound : (a : Text) (seen : List Text) → any (text_eq a) seen ≡ false → All (λ y. a ≢ y) seen
any-eq_sound a [] h = tt
any-eq_sound a (y ∷ ys) h = (
  λ e. cc (subst (λ z. text_eq a z ≡ true) e (text_eq_refl a), here),
  any-eq_sound a ys (ground arith),
)
  where
    here : text_eq a y ≡ false
    here = ground arith

any-eq_complete :
    (a : Text) (seen : List Text) → All (λ y. a ≢ y) seen → any (text_eq a) seen ≡ false
any-eq_complete a [] h = refl
any-eq_complete a (y ∷ ys) (p, h) = elim (Bool-cases (text_eq a y)) [
  | inl same ↦ absurd (p (eq_of_text_eq a y same))
  | inr other ↦ rw other (any-eq_complete a ys h)
]

abbrev names : List DohRelay → List Text
names = map (λ (r : DohRelay). r.authority)

-- None of the texts is among those seen.
abbrev Fresh : List Text → List Text → Type 0
Fresh seen = All (λ a. All (λ y. a ≢ y) seen)

Fresh-append :
    (seen xs : List Text) (a : Text)
    → Fresh seen xs
    → All (λ y. a ≢ y) xs
    → Fresh (seen ++ a ∷ []) xs
Fresh-append seen [] a f d = tt
Fresh-append seen (x ∷ xs) a (p, f) (n, d) =
    (All-append (λ y. x ≢ y) seen (a ∷ []) p ((λ e. n (sym e)), tt), Fresh-append seen xs a f d)

Fresh-of_append :
    (seen xs : List Text) (a : Text)
    → Fresh (seen ++ a ∷ []) xs
    → Fresh seen xs × All (λ y. a ≢ y) xs
Fresh-of_append seen [] a f = (tt, tt)
Fresh-of_append seen (x ∷ xs) a (p, f) =
    let (before, last) = All-of_append (λ y. x ≢ y) seen (a ∷ []) p in
    let (fresh, apart) = Fresh-of_append seen xs a f in
    ((before, fresh), ((λ e. last.0 (sym e)), apart))

looped_from_sound :
    (seen : List Text) (relays : List DohRelay)
    → looped_from seen relays ≡ false
    → Fresh seen (names relays) × Distinct (names relays)
unfolding looped_from
looped_from_sound seen [] h = (tt, tt)
looped_from_sound seen (r ∷ rs) h = elim (Bool-cases (any (text_eq r.authority) seen)) [
  | inl old ↦ ground arith
  | inr new ↦
      let (fresh, distinct) = looped_from_sound (seen ++ r.authority ∷ []) rs (ground arith) in
      let (before, apart) = Fresh-of_append seen (names rs) r.authority fresh in
      ((any-eq_sound r.authority seen new, before), (apart, distinct))
]

looped_from_complete :
    (seen : List Text) (relays : List DohRelay)
    → Fresh seen (names relays)
    → Distinct (names relays)
    → looped_from seen relays ≡ false
unfolding looped_from
looped_from_complete seen [] f d = refl
looped_from_complete seen (r ∷ rs) (p, f) (apart, d) = rw (any-eq_complete r.authority seen p) (
    looped_from_complete (seen ++ r.authority ∷ []) rs
      (Fresh-append seen (names rs) r.authority f apart) d)

Fresh-nil : (xs : List Text) → Fresh [] xs
Fresh-nil [] = tt
Fresh-nil (x ∷ xs) = (tt, Fresh-nil xs)

-- A path is not looped exactly when its target and its relays have pairwise different authorities.
pub is_looped-eq-false_iff : (p : DohPath) → (is_looped p ≡ false) ↔ Distinct (authorities p)
unfolding is_looped
is_looped-eq-false_iff p = (
  λ h.
      let (fresh, d) = looped_from_sound (t ∷ []) p.relays h in
      ((Fresh-of_append [] (names p.relays) t fresh).1, d),
  λ d.
      looped_from_complete (t ∷ []) p.relays
        (Fresh-append [] (names p.relays) t (Fresh-nil (names p.relays)) d.0) d.1,
)
  where
    t : Text
    t = p.target.authority

-- A path of the nested lists, with its groups.
abbrev pub Listed {ℓ} : {A : Type ℓ} → A → List (List (List A)) → Type ℓ
Listed {A} a paths = (t : List (List A)) × (h : List A) × Memᴰ t paths × Memᴰ h t × Memᴰ a h

-- No group on either level is empty.
abbrev pub HasNoEmpty {ℓ} : {A : Type ℓ} → List (List (List A)) → Type 0
HasNoEmpty = All (λ t. (is_empty t ≡ false) × All (λ h. is_empty h ≡ false) t)

mem-is_empty {ℓ} : {B : Type ℓ} {b : B} (xs : List B) → Memᴰ b xs → not (is_empty xs) ≡ true
mem-is_empty [] m = elim m [ ]
mem-is_empty (x ∷ xs) m = refl

module _ {ℓ} {A : Type ℓ} (p : A → Bool) where
  -- One level of `prune`: the groups of one target.
  abbrev groups : List (List A) → List (List A)
  groups t = filter (λ h. not (is_empty h)) (map (filter p) t)

  mem-groups :
      {a : A} {h : List A} (t : List (List A))
      → Memᴰ h t
      → Memᴰ a h
      → p a ≡ true
      → Memᴰ (filter p h) (groups t) × Memᴰ a (filter p h)
  mem-groups {h} t mh ma e =
      let k = mem-filter p h ma e in
      (
        mem-filter (λ h. not (is_empty h)) (map (filter p) t) (mem-map (filter p) t mh)
            (mem-is_empty (filter p h) k),
        k,
      )

  mem_of_mem-groups :
      {a : A} {h : List A} (t : List (List A))
      → Memᴰ h (groups t)
      → Memᴰ a h
      → (h' : List A) × Memᴰ h' t × Memᴰ a h' × (p a ≡ true)
  mem_of_mem-groups {a} t mh ma =
      let (kept, _) = mem_of_mem-filter (λ h. not (is_empty h)) (map (filter p) t) mh in
      let (h', mh', e) = mem_of_mem-map (filter p) t kept in
      let (ma', ok) = mem_of_mem-filter p h' (subst (Memᴰ a) e ma) in (h', mh', ma', ok)

  Listed-prune_to :
      {a : A} (paths : List (List (List A)))
      → Listed a (prune p paths)
      → Listed a paths × (p a ≡ true)
  unfolding prune
  Listed-prune_to {a} paths (t, h, mt, mh, ma) =
      let (kept, _) = mem_of_mem-filter (λ t. not (is_empty t)) (map groups paths) mt in
      let (t', mt', e) = mem_of_mem-map groups paths kept in
      let (h', mh', ma', ok) = mem_of_mem-groups t' (subst (Memᴰ h) e mh) ma in
      ((t', h', mt', mh', ma'), ok)

  Listed-prune_from :
      {a : A} (paths : List (List (List A)))
      → Listed a paths × (p a ≡ true)
      → Listed a (prune p paths)
  unfolding prune
  Listed-prune_from paths ((t, h, mt, mh, ma), e) =
      let (k, ma') = mem-groups t mh ma e in
      (
        groups t,
        filter p h,
        mem-filter (λ t. not (is_empty t)) (map groups paths) (mem-map groups paths mt)
            (mem-is_empty (groups t) k),
        k,
        ma',
      )

  -- Pruning keeps exactly the elements that pass the test.
  pub Listed-prune :
      {a : A} (paths : List (List (List A)))
      → Listed a (prune p paths) ↔ (Listed a paths × (p a ≡ true))
  Listed-prune paths = (Listed-prune_to paths, Listed-prune_from paths)

  groups-HasNoEmpty : (t : List (List A)) → All (λ h. is_empty h ≡ false) (groups t)
  groups-HasNoEmpty t =
      All-filter (λ h. is_empty h ≡ false) (λ h. not (is_empty h)) (λ h e. ground arith)
        (map (filter p) t)

  -- Pruning leaves no empty group.
  pub prune-HasNoEmpty : (paths : List (List (List A))) → HasNoEmpty (prune p paths)
  unfolding prune
  prune-HasNoEmpty paths =
      let full = λ (t : List (List A)). is_empty t ≡ false in
      let inner = λ (t : List (List A)). All (λ h. is_empty h ≡ false) t in
      let keep = λ (t : List (List A)). not (is_empty t) in
      All-zip full inner (prune p paths)
        (All-filter full keep (λ t e. ground arith) (map groups paths))
        (All-filter_of_All inner keep (map groups paths)
          (All-map inner groups paths (All-of_mem _ paths (λ t _. groups-HasNoEmpty t))))
