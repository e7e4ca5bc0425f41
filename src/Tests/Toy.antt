-- ===== src/Tests/Toy.antt =====
-- Instances of the interfaces to url, itertools and hashlink.
use doh_auth_proxy.Prelude.{
  ℕ, zero, suc, ◌≡◌, refl, ap, sym, subst, false, Option, none, some, List, [], ◌∷◌, ◌++◌, map,
  Memᴰ, any, ◌==◌, if◌then◌else◌, concat, mem-map, mem_of_mem-map, mem-concat, mem_of_mem-concat,
  mem-singleton, length,
}
use doh_auth_proxy.Text.{Text, codes}
use doh_auth_proxy.Url.{UrlLib, Permutations, Pick, here, later, Arrangement, none_left, pick}
use doh_auth_proxy.Cache.Linked.{LinkedHashMap, lookup, remove, move_back}

pub record ToyUrl : Type 0 where
  pub scheme : Text
  pub authority : Text
  pub path : Text
  pub pairs : List (Text × Text)

-- Only a text with a colon parses, and all of it is the authority.
abbrev pub toy_url : UrlLib
toy_url = record {
  Url = ToyUrl;
  parse = λ s.
      if any (λ c. c == b':') s
      then some (record { scheme = codes "https"; authority = s; path = codes "/"; pairs = [] })
      else none;
  as_str = λ u. u.authority ++ u.path;
  authority = λ u. u.authority;
  path = λ u. u.path;
  scheme = λ u. u.scheme;
  host_domain = λ u. some u.authority;
  port = λ u. none;
  cannot_be_a_base = λ u. false;
  set_scheme = λ u s. some (record u { scheme = s });
  set_path = λ u p. record u { path = p };
  append_pair = λ u k v. record u { pairs = u.pairs ++ (k, v) ∷ [] };
}

module _ {A : Type 0} where
  -- Every way to take one element.
  abbrev pub picks : List A → List (A × List A)
  picks [] = []
  picks (x ∷ xs) = (x, xs) ∷ map (λ (e : A × List A). (e.0, x ∷ e.1)) (picks xs)

  mem-picks : {x : A} {xs rest : List A} → Pick x xs rest → Memᴰ (x, rest) (picks xs)
  mem-picks here = Memᴰ.head refl
  mem-picks (later {y = y} p) =
      Memᴰ.tail (mem-map (λ (e : A × List A). (e.0, y ∷ e.1)) _ (mem-picks p))

  Pick-cons :
      (x : A) (xs : List A) (e : A × List A)
      → (e' : A × List A) × Pick e'.0 xs e'.1 × (e ≡ (e'.0, x ∷ e'.1))
      → Pick e.0 (x ∷ xs) e.1
  Pick-cons x xs e (e', p, same) =
      subst (λ (d : A × List A). Pick d.0 (x ∷ xs) d.1) (sym same) (later p)

  Pick-of_mem : (xs : List A) (e : A × List A) → Memᴰ e (picks xs) → Pick e.0 xs e.1
  Pick-of_mem [] e m = elim m [ ]
  Pick-of_mem (x ∷ xs) e (Memᴰ.head same) =
      subst (λ (d : A × List A). Pick d.0 (x ∷ xs) d.1) (sym same) here
  Pick-of_mem (x ∷ xs) e (Memᴰ.tail m) =
      let (e', k, same) = mem_of_mem-map (λ (d : A × List A). (d.0, x ∷ d.1)) (picks xs) m in
      Pick-cons x xs e (e', Pick-of_mem xs e' k, same)

  abbrev pub arrangements : ℕ → List A → List (List A)
  arrangements zero xs = [] ∷ []
  arrangements (suc k) xs =
      concat (map (λ (e : A × List A). map (◌∷◌ e.0) (arrangements k e.1)) (picks xs))

  pub Arrangement-of_mem : (k : ℕ) (xs p : List A) → Memᴰ p (arrangements k xs) → Arrangement k xs p
  Arrangement-of_mem zero xs p m = subst (Arrangement 0 xs) (sym (mem-singleton m)) none_left
  Arrangement-of_mem (suc k) xs p m =
      let (ps, a, b) =
        mem_of_mem-concat (map (λ (e : A × List A). map (◌∷◌ e.0) (arrangements k e.1)) (picks xs))
          m in
      let (e, c, same) =
        mem_of_mem-map (λ (e : A × List A). map (◌∷◌ e.0) (arrangements k e.1)) (picks xs) a in
      let (q, d, made) = mem_of_mem-map (◌∷◌ e.0) (arrangements k e.1) (subst (Memᴰ p) same b) in
      subst (Arrangement (suc k) xs) (sym made)
        (pick (Pick-of_mem xs e c) (Arrangement-of_mem k e.1 q d))

  pub mem-of_Arrangement : {k : ℕ} {xs p : List A} → Arrangement k xs p → Memᴰ p (arrangements k xs)
  mem-of_Arrangement none_left = Memᴰ.head refl
  mem-of_Arrangement (pick {k} {x} {xs} {rest} t a) =
      mem-concat (map (λ (e : A × List A). map (◌∷◌ e.0) (arrangements k e.1)) (picks xs))
        (mem-map (λ (e : A × List A). map (◌∷◌ e.0) (arrangements k e.1)) (picks xs) (mem-picks t))
        (mem-map (◌∷◌ x) (arrangements k rest) (mem-of_Arrangement a))

  abbrev pub toy_permutations : Permutations A
  toy_permutations = record {
    permutations = λ xs k. arrangements k xs;
    permutations_iff = λ xs k p. (Arrangement-of_mem k xs p, λ a. mem-of_Arrangement a);
  }

module _ {K V : Type 0} (dec : Discrete K) where
  abbrev drop_first : List (K × V) → Option (List (K × V))
  drop_first [] = none
  drop_first (e ∷ l) = some l

  pub drop_first_nil : (l : List (K × V)) → l ≡ [] → drop_first l ≡ none
  drop_first_nil l e = ap drop_first e

  -- The map as its list of entries.
  abbrev pub toy_map : LinkedHashMap K V dec
  toy_map = record {
    Map = List (K × V);
    entries = λ m. m;
    new_map = [];
    len = length;
    insert = λ m k v. remove dec k m ++ (k, v) ∷ [];
    pop_front = drop_first;
    find = λ m k. lookup dec k m;
    to_back = λ m k. move_back dec k m;
    remove_entry = λ m k. remove dec k m;
    entries-new_map = refl;
    len_lem = λ m. refl;
    entries-insert = λ m k v. refl;
    pop_front_nil = drop_first_nil;
    pop_front_cons = λ m e l h. (l, ap drop_first h, refl);
    find_lem = λ m k. refl;
    entries-to_back = λ m k. refl;
    entries-remove_entry = λ m k. refl;
  }
