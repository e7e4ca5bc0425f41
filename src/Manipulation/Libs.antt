-- ===== src/Manipulation/Libs.antt =====
-- What the manipulation of queries takes from the crates regex and cedarwood, which are not part of
-- the repository, and the slicing of texts by bytes.
use doh_auth_proxy.Prelude.{
  ℕ, zero, suc, ◌+◌, ◌-◌, ◌%◌, ◌^◌, ◌≡◌, ◌≢◌, Bool, true, List, [], ◌∷◌, ◌++◌, Memᴰ, Outcome, ok,
  panic, ◌>>=◌, if◌then◌else◌, ltb, leb,
}
use doh_auth_proxy.Text.{Text, codes, utf8_len, Prefix}

-- `Regex::new(pattern).unwrap().is_match(text)`.
pub record Regex : Type 0 where
  pub is_match : Text → Text → Bool

-- The patterns of regexp_vals.rs.
abbrev pub regexp_domain : Text
regexp_domain = codes "([a-zA-Z0-9][a-zA-Z0-9-]*[a-zA-Z0-9]*\\.)+([a-zA-Z]{2,})"

abbrev pub regexp_domain_or_prefix : Text
regexp_domain_or_prefix = codes "^([a-zA-Z0-9][a-zA-Z0-9-]*[a-zA-Z0-9]*\\.)+([a-zA-Z]{2,}|\\*)"

unfoldable pub regexp_ipv4 : Text
regexp_ipv4 =
    codes "((25[0-5]|2[0-4][0-9]|1[0-9][0-9]|[1-9]?[0-9])\\.){3}(25[0-5]|2[0-4][0-9"
    ++ (codes "]|1[0-9][0-9]|[1-9]?[0-9])")

unfoldable pub regexp_ipv6 : Text
regexp_ipv6 =
    codes "(([0-9a-fA-F]{1,4}:){7,7}[0-9a-fA-F]{1,4}|([0-9a-fA-F]{1,4}:){1,7}:|([0-"
    ++ (codes "9a-fA-F]{1,4}:){1,6}:[0-9a-fA-F]{1,4}|([0-9a-fA-F]{1,4}:){1,5}(:[0-9a-fA"
        ++ (codes "-F]{1,4}){1,2}|([0-9a-fA-F]{1,4}:){1,4}(:[0-9a-fA-F]{1,4}){1,3}|([0-9a-f"
            ++ (codes "A-F]{1,4}:){1,3}(:[0-9a-fA-F]{1,4}){1,4}|([0-9a-fA-F]{1,4}:){1,2}(:[0-9a"
                ++ (codes "-fA-F]{1,4}){1,5}|[0-9a-fA-F]{1,4}:((:[0-9a-fA-F]{1,4}){1,6})|:((:[0-9a-"
                    ++ (codes
                          "fA-F]{1,4}){1,7}|:)|fe80:(:[0-9a-fA-F]{0,4}){0,4}%[0-9a-zA-Z]{1,}|::(fff"
                        ++ (codes
                              "f(:0{1,4}){0,1}:){0,1}((25[0-5]|(2[0-4]|1{0,1}[0-9]){0,1}[0-9])\\.){3,3}"
                            ++ (codes
                                  "(25[0-5]|(2[0-4]|1{0,1}[0-9]){0,1}[0-9])|([0-9a-fA-F]{1,4}:){1,4}:((25[0"
                                ++ (codes
                                      "-5]|(2[0-4]|1{0,1}[0-9]){0,1}[0-9])\\.){3,3}(25[0-5]|(2[0-4]|1{0,1}[0-9]"
                                    ++ (codes "){0,1}[0-9]))")))))))))

abbrev pub start_with_star : Text
start_with_star = codes "^\\*\\..+"

abbrev pub end_with_star : Text
end_with_star = codes ".+\\.\\*$"

-- What the documentation of the syntax says of the two patterns with a star. `.` matches any
-- character but the end of a line.
pub record StarPatterns (R : Regex) : Type 0 where
  pub start_with_star_lem :
      (s : Text)
      → R.is_match start_with_star s ≡ true
      → (c : ℕ) × (r : Text) × (s ≡ b'*' ∷ b'.' ∷ c ∷ r)
  pub end_with_star_lem :
      (s : Text)
      → R.is_match end_with_star s ≡ true
      → (c : ℕ) × (r : Text) × (s ≡ (c ∷ r) ++ b'.' ∷ b'*' ∷ [])

-- `cedarwood::Cedar`: a trie of texts with values, an `i32` as its bit pattern. The search yields
-- the value and the length of the keys that begin the text.
pub record CedarLib : Type 1 where
  pub Cedar : Type 0
  pub build : List (Text × ℕ) → Cedar
  pub common_prefix_iter : Cedar → Text → List (ℕ × ℕ)
  pub found_sound :
      (kv : List (Text × ℕ)) (q : Text) (v n : ℕ)
      → Memᴰ (v, n) (common_prefix_iter (build kv) q)
      → (k : Text) × Memᴰ (k, v) kv × Prefix k q
  pub found_complete :
      (kv : List (Text × ℕ)) (q k : Text) (v : ℕ)
      → k ≢ []
      → Memᴰ (k, v) kv
      → Prefix k q
      → (v' : ℕ) × (n : ℕ) × Memᴰ (v', n) (common_prefix_iter (build kv) q) × Memᴰ (k, v') kv

-- `k as i32`, and `x as usize` of an `i32`.
abbrev pub as_i32 : ℕ → ℕ
as_i32 k = k % 2 ^ 32

abbrev pub as_usize : ℕ → ℕ
as_usize x = if ltb x (2 ^ 31) then x else x + (2 ^ 64 - 2 ^ 32)

-- `&s[n..]`: a panic outside the text or inside a character.
unfoldable pub slice_from : ℕ → Text → Outcome Text
slice_from zero s = ok s
slice_from (suc n) [] = panic
slice_from (suc n) (c ∷ s) =
    if leb (utf8_len c) (suc n) then slice_from (suc n - utf8_len c) s else panic

-- `&s[..n]`.
unfoldable pub slice_to : ℕ → Text → Outcome Text
slice_to zero s = ok []
slice_to (suc n) [] = panic
slice_to (suc n) (c ∷ s) =
    if leb (utf8_len c) (suc n)
    then (slice_to (suc n - utf8_len c) s >>= λ r. ok (c ∷ r))
    else panic
