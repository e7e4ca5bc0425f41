-- ===== src/Dns/Order.antt =====
-- The order of query keys, and that sorting forgets the order of a list.
use Prim.Native.Nat.{compare, Ordering}
use doh_auth_proxy.Prelude.{◌≡◌, refl, sym, [], ◌∷◌, arith, inl, inr, ◌⊎◌}
use doh_auth_proxy.Text.{Text}
use doh_auth_proxy.Dns.{then_cmp, text_cmp}

abbrev pub opposite : Ordering → Ordering
opposite Ordering.lt = Ordering.gt
opposite Ordering.eq = Ordering.eq
opposite Ordering.gt = Ordering.lt

-- A total order, as `Ord` promises it; `eq` holds of equal elements alone.
pub record IsOrder {ℓ} {A : Type ℓ} (cmp : A → A → Ordering) : Type ℓ where
  pub same : (a b : A) → cmp a b ≡ Ordering.eq → a ≡ b
  pub flip : (a b : A) → cmp b a ≡ opposite (cmp a b)
  pub trans : (a b c : A) → cmp a b ≡ Ordering.lt → cmp b c ≡ Ordering.lt → cmp a c ≡ Ordering.lt

pub compare-IsOrder : IsOrder compare
compare-IsOrder = record {
  same = λ a b e. ground arith;
  flip = λ a b. ground arith;
  trans = λ a b c e f. ground arith;
}

Ordering-cases : (o : Ordering) → (o ≡ Ordering.lt) ⊎ ((o ≡ Ordering.eq) ⊎ (o ≡ Ordering.gt))
Ordering-cases Ordering.lt = inl refl
Ordering-cases Ordering.eq = inr (inl refl)
Ordering-cases Ordering.gt = inr (inr refl)

module _ {A : Type 0} {cmp : A → A → Ordering} (o : IsOrder cmp) where
  cmp_refl : (a : A) → cmp a a ≡ Ordering.eq
  cmp_refl a = elim (Ordering-cases (cmp a a)) [
    | inl l ↦ let f = o.flip a a in cc
    | inr (inl e) ↦ e
    | inr (inr g) ↦ let f = o.flip a a in cc
  ]

  -- A function whose values are equal only where its arguments are carries the order over.
  pub IsOrder-comap :
      {B : Type 0} (f : B → A)
      → ((x y : B) → f x ≡ f y → x ≡ y)
      → IsOrder (λ (x y : B). cmp (f x) (f y))
  IsOrder-comap f inj = record {
    same = λ a b e. inj a b (o.same (f a) (f b) e);
    flip = λ a b. o.flip (f a) (f b);
    trans = λ a b c d e. o.trans (f a) (f b) (f c) d e;
  }

module _ {A B : Type 0} {cmp : A → A → Ordering} {cmp' : B → B → Ordering} (o : IsOrder cmp)
    (o' : IsOrder cmp') where
  abbrev pub lexicographic : A × B → A × B → Ordering
  lexicographic p q = then_cmp (cmp p.0 q.0) (cmp' p.1 q.1)

  lex_same : (p q : A × B) → lexicographic p q ≡ Ordering.eq → p ≡ q
  lex_same p q e = elim (Ordering-cases (cmp p.0 q.0)) [
    | inl l ↦ cc (rw l at e)
    | inr (inl s) ↦
        let t : cmp' p.1 q.1 ≡ Ordering.eq = rw s at e in
        λ i. (o.same p.0 q.0 s i, o'.same p.1 q.1 t i)
    | inr (inr g) ↦ cc (rw g at e)
  ]

  lex_flip : (p q : A × B) → lexicographic q p ≡ opposite (lexicographic p q)
  lex_flip p q =
      rw (o.flip p.0 q.0, o'.flip p.1 q.1)
        (elim (Ordering-cases (cmp p.0 q.0)) [
          | inl l ↦ rw l refl
          | inr (inl s) ↦ rw s refl
          | inr (inr g) ↦ rw g refl
        ])

  lex_trans :
      (p q r : A × B)
      → lexicographic p q ≡ Ordering.lt
      → lexicographic q r ≡ Ordering.lt
      → lexicographic p r ≡ Ordering.lt
  lex_trans p q r e f = elim (Ordering-cases (cmp p.0 q.0)) [
    | inr (inr g) ↦ cc (rw g at e)
    | inr (inl s) ↦
        let back = o.same p.0 q.0 s in
        elim (Ordering-cases (cmp q.0 r.0)) [
          | inr (inr g) ↦ cc (rw g at f)
          | inl l ↦ rw (back, l) refl
          | inr (inl s') ↦ rw (back, s') (o'.trans p.1 q.1 r.1 (rw s at e) (rw s' at f))
        ]
    | inl l ↦ elim (Ordering-cases (cmp q.0 r.0)) [
      | inr (inr g) ↦ cc (rw g at f)
      | inl l' ↦ rw (o.trans p.0 q.0 r.0 l l') refl
      | inr (inl s') ↦ rw (sym (o.same q.0 r.0 s'), l) refl
    ]
  ]

  pub IsOrder-lexicographic : IsOrder lexicographic
  IsOrder-lexicographic = record { same = lex_same; flip = lex_flip; trans = lex_trans }

text_same : (s t : Text) → text_cmp s t ≡ Ordering.eq → s ≡ t
unfolding text_cmp
text_same [] [] e = refl
text_same [] (y ∷ ys) e = cc
text_same (x ∷ xs) [] e = cc
text_same (x ∷ xs) (y ∷ ys) e = ground (arith, text_same xs ys)

text_flip : (s t : Text) → text_cmp t s ≡ opposite (text_cmp s t)
unfolding text_cmp
text_flip [] [] = refl
text_flip [] (y ∷ ys) = refl
text_flip (x ∷ xs) [] = refl
text_flip (x ∷ xs) (y ∷ ys) = ground (arith, text_flip xs ys)

text_trans :
    (s t u : Text)
    → text_cmp s t ≡ Ordering.lt
    → text_cmp t u ≡ Ordering.lt
    → text_cmp s u ≡ Ordering.lt
unfolding text_cmp
text_trans [] [] u e f = cc
text_trans [] (y ∷ ys) [] e f = cc
text_trans [] (y ∷ ys) (z ∷ zs) e f = refl
text_trans (x ∷ xs) [] u e f = cc
text_trans (x ∷ xs) (y ∷ ys) [] e f = cc
text_trans (x ∷ xs) (y ∷ ys) (z ∷ zs) e f = ground (arith, text_trans xs ys zs)

pub text_cmp-IsOrder : IsOrder text_cmp
text_cmp-IsOrder = record { same = text_same; flip = text_flip; trans = text_trans }
