-- ===== src/Dns/Laws.antt =====
-- The cache's key of a query does not depend on the order and the case of its questions.
use Prim.Native.Nat.{Ordering}
use mathlib.Core.List.{Permᴰ}
use doh_auth_proxy.Prelude.{
  ℕ, ◌≡◌, refl, sym, ◌∙◌, ap, Bool, true, false, List, [], ◌∷◌, map, arith, if◌then◌else◌, is_empty,
  Bool-cases, inl, inr, ok, err, other,
}
use doh_auth_proxy.Text.{Text, to_ascii_lowercase}
use doh_auth_proxy.Hickory.{Hickory}
use doh_auth_proxy.Dns.{not_after, insert_sorted, sort, QueryKey, key_cmp, key_of, request_try_from}
use doh_auth_proxy.Dns.Order.{
  IsOrder, compare-IsOrder, text_cmp-IsOrder, IsOrder-lexicographic, IsOrder-comap,
}

module _ {A : Type 0} {cmp : A → A → Ordering} (o : IsOrder cmp) where
  abbrev na : A → A → Bool
  na = not_after cmp

  na_total : (a b : A) → na a b ≡ false → na b a ≡ true
  na_total a b h = let f = o.flip a b in ground arith

  na_antisym : (a b : A) → na a b ≡ true → na b a ≡ true → a ≡ b
  na_antisym a b h k = let f = o.flip a b in ground (arith, o.same a b)

  na_mixed : (a b c : A) → na a c ≡ true → na b c ≡ false → na b a ≡ false
  na_mixed a b c h k =
      let f = o.flip a b in let g = o.flip b c in ground (arith, o.same a c, o.trans a c b)

  insert_comm :
      (a b : A) (l : List A)
      → insert_sorted cmp a (insert_sorted cmp b l) ≡ insert_sorted cmp b (insert_sorted cmp a l)
  unfolding insert_sorted
  insert_comm a b [] = elim (Bool-cases (na a b)) [
    | inl h ↦ elim (Bool-cases (na b a)) [
      | inl k ↦ let e = na_antisym a b h k in rw (h, k) (λ i. e i ∷ sym e i ∷ [])
      | inr k ↦ rw (h, k) refl
    ]
    | inr h ↦ let k = na_total a b h in rw (h, k) refl
  ]
  insert_comm a b (c ∷ l) = elim (Bool-cases (na a c)) [
    | inl h ↦ elim (Bool-cases (na b c)) [
      | inl k ↦ elim (Bool-cases (na a b)) [
        | inl p ↦ elim (Bool-cases (na b a)) [
          | inl q ↦ let e = na_antisym a b p q in rw (h, k, p, q) (λ i. e i ∷ sym e i ∷ c ∷ l)
          | inr q ↦ rw (h, k, p, q) refl
        ]
        | inr p ↦ let q = na_total a b p in rw (h, k, p, q) (rw h refl)
      ]
      | inr k ↦ let q = na_mixed a b c h k in rw (h, k, q) (rw h refl)
    ]
    | inr h ↦ elim (Bool-cases (na b c)) [
      | inl k ↦ let q = na_mixed b a c k h in rw (h, k, q) (rw h refl)
      | inr k ↦ rw (h, k) (rw h (ap (◌∷◌ c) (insert_comm a b l)))
    ]
  ]

  pub sort-Permᴰ : {xs ys : List A} → Permᴰ xs ys → sort cmp xs ≡ sort cmp ys
  unfolding sort
  sort-Permᴰ Permᴰ.nil = refl
  sort-Permᴰ (Permᴰ.cons e p) = λ i. insert_sorted cmp (e i) (sort-Permᴰ p i)
  sort-Permᴰ (Permᴰ.swap {a} {b} {a'} {b'} {l} e f) =
      insert_comm a b (sort cmp l)
      ∙ (λ i. insert_sorted cmp (f i) (insert_sorted cmp (e i) (sort cmp l)))
  sort-Permᴰ (Permᴰ.trans p q) = sort-Permᴰ p ∙ sort-Permᴰ q

map-Permᴰ {ℓ κ} :
    {A : Type ℓ} {B : Type κ} (f : A → B) {xs ys : List A}
    → Permᴰ xs ys
    → Permᴰ (map f xs) (map f ys)
map-Permᴰ f Permᴰ.nil = Permᴰ.nil
map-Permᴰ f (Permᴰ.cons e p) = Permᴰ.cons (ap f e) (map-Permᴰ f p)
map-Permᴰ f (Permᴰ.swap e e') = Permᴰ.swap (ap f e) (ap f e')
map-Permᴰ f (Permᴰ.trans p q) = Permᴰ.trans (map-Permᴰ f p) (map-Permᴰ f q)

is_empty-Permᴰ {ℓ} : {A : Type ℓ} {xs ys : List A} → Permᴰ xs ys → is_empty xs ≡ is_empty ys
is_empty-Permᴰ Permᴰ.nil = refl
is_empty-Permᴰ (Permᴰ.cons e p) = refl
is_empty-Permᴰ (Permᴰ.swap e e') = refl
is_empty-Permᴰ (Permᴰ.trans p q) = is_empty-Permᴰ p ∙ is_empty-Permᴰ q

module _ (H : Hickory)
    (type_rank_inj : (a b : H.RecordType) → H.type_rank a ≡ H.type_rank b → a ≡ b)
    (class_rank_inj : (a b : H.DnsClass) → H.class_rank a ≡ H.class_rank b → a ≡ b) where
  key_parts : QueryKey H → Text × (ℕ × ℕ)
  key_parts k = (k.query_name, (H.type_rank k.query_type, H.class_rank k.query_class))

  key_parts_inj : (j k : QueryKey H) → key_parts j ≡ key_parts k → j ≡ k
  unfolding key_parts
  key_parts_inj j k e i = record {
    query_name = (e i).0;
    query_type = type_rank_inj j.query_type k.query_type (ap (λ p. p.1.0) e) i;
    query_class = class_rank_inj j.query_class k.query_class (ap (λ p. p.1.1) e) i;
  }

  key_cmp-IsOrder : IsOrder (key_cmp H)
  unfolding key_cmp key_parts
  key_cmp-IsOrder =
      IsOrder-comap
        (IsOrder-lexicographic text_cmp-IsOrder
          (IsOrder-lexicographic compare-IsOrder compare-IsOrder))
        key_parts key_parts_inj

  -- The same question but for the case of its name.
  pub record SameQuestion (q r : H.Query) : Type 0 where
    pub same_name :
        to_ascii_lowercase (H.name_to_string (H.query_name q))
        ≡ to_ascii_lowercase (H.name_to_string (H.query_name r))
    pub same_type : H.query_type q ≡ H.query_type r
    pub same_class : H.query_class q ≡ H.query_class r

  abbrev pub SameQuestions : List H.Query → List H.Query → Type 0
  SameQuestions [] [] = Unit
  SameQuestions (q ∷ qs) (r ∷ rs) = SameQuestion q r × SameQuestions qs rs
  SameQuestions _ _ = ⊥

  keys-SameQuestions :
      (qs rs : List H.Query)
      → SameQuestions qs rs
      → (map (key_of H) qs ≡ map (key_of H) rs) × (is_empty qs ≡ is_empty rs)
  unfolding key_of
  keys-SameQuestions [] [] s = (refl, refl)
  keys-SameQuestions [] (r ∷ rs) s = absurd s
  keys-SameQuestions (q ∷ qs) [] s = absurd s
  keys-SameQuestions (q ∷ qs) (r ∷ rs) (s, t) =
      let (rest, _) = keys-SameQuestions qs rs t in
      (
        (λ i.
            record {
              query_name = s.same_name i;
              query_type = s.same_type i;
              query_class = s.same_class i;
            }
            ∷ rest i),
        refl,
      )

  -- Two messages whose questions are the same, in any order and in any case, have the same key in
  -- the cache, or both none; types and classes are the same where their numbers are.
  pub request_try_from-Permᴰ :
      (m m' : H.Message) (qs : List H.Query)
      → Permᴰ (H.parts m).queries qs
      → SameQuestions qs (H.parts m').queries
      → request_try_from H m ≡ request_try_from H m'
  unfolding request_try_from
  request_try_from-Permᴰ m m' qs p s =
      let (keys, empty) = keys-SameQuestions qs (H.parts m').queries s in
      let sorted =
        sort-Permᴰ key_cmp-IsOrder (map-Permᴰ (key_of H) p) ∙ ap (sort (key_cmp H)) keys in
      λ i. if (is_empty-Permᴰ p ∙ empty) i then err other else ok (record { keys = sorted i })
