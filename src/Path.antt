-- ===== src/Path.antt =====
-- dap-lib/src/doh_client/path_manage.rs: targets, relays, paths, and the manager of all paths.
pub mod Build
pub mod Loops
pub mod Choose
pub mod Complete
pub mod Laws
pub mod Urls
use doh_auth_proxy.Prelude.{
  ℕ, zero, suc, ◌+◌, ◌-◌, ◌/◌, ◌%◌, Bool, true, false, not, Option, none, some, List, [], ◌∷◌, ◌++◌,
  map, Outcome, ok, err, panic, ◌>>=◌, url_error, failed_to_build_doh_url, if◌then◌else◌, is_empty,
  filter, any, ok_or, unwrap, get_elem?, length, take, enumerate_from, traverse, ltb, ◌==◌,
}
use doh_auth_proxy.Text.{Text, codes, text_eq}
use doh_auth_proxy.Url.{UrlLib}

pub data Scheme : Type 0 where
  http https : Scheme

abbrev pub scheme_str : Scheme → Text
scheme_str http = codes "http"
scheme_str https = codes "https"

-- `Scheme::try_from`.
unfoldable pub scheme_try_from : Text → Outcome Scheme
scheme_try_from s =
    if text_eq s (codes "http")
    then ok http
    else if text_eq s (codes "https")
    then ok https
    else err failed_to_build_doh_url

-- `Scheme::try_from(..).unwrap_or(Scheme::Https)`.
unfoldable pub scheme_or_https : Text → Scheme
unfolding scheme_try_from
scheme_or_https s = elim (scheme_try_from s) [ ok c ↦ c | err e ↦ https | panic ↦ https ]

pub data DohType : Type 0 where
  standard oblivious : DohType

pub record DohTarget : Type 0 where
  pub authority : Text
  pub path : Text
  pub scheme : Scheme

pub record DohRelay : Type 0 where
  pub authority : Text
  pub path : Text
  pub scheme : Scheme
  pub can_be_next_hop : Bool

-- The health flag is the `AtomicBool` of the path.
pub record DohPath : Type 0 where
  pub target : DohTarget
  pub relays : List DohRelay
  pub is_healthy : Bool
  pub doh_type : DohType

-- `is_looped`: the loop over the relays, with the authorities seen so far.
looped_from : List Text → List DohRelay → Bool
looped_from seen [] = false
looped_from seen (relay ∷ relays) =
    if any (text_eq relay.authority) seen
    then true
    else looped_from (seen ++ relay.authority ∷ []) relays

unfoldable pub is_looped : DohPath → Bool
unfolding looped_from
is_looped p = looped_from (p.target.authority ∷ []) p.relays

unfoldable pub make_healthy : DohPath → DohPath
make_healthy p = record p { is_healthy = true }

unfoldable pub make_unhealthy : DohPath → DohPath
make_unhealthy p = record p { is_healthy = false }

-- The digits of a number as `format!` prints it; `fuel` bounds their number.
show_from : ℕ → ℕ → Text → Text
show_from zero n acc = acc
show_from (suc fuel) n acc =
    let acc' = (b'0' + n % 10) ∷ acc in
    let rest = show_from fuel (n / 10) acc' in if ltb n 10 then acc' else rest

unfoldable pub show : ℕ → Text
unfolding show_from
show n = show_from (suc n) n []

pub record DohPathManager : Type 0 where
  pub paths : List (List (List DohPath))
  pub target_randomization : Bool
  pub nexthop_randomization : Bool

-- `map(..)` with an inner `filter`, and the empty groups dropped, on both levels.
unfoldable pub prune {ℓ} : {A : Type ℓ} → (A → Bool) → List (List (List A)) → List (List (List A))
prune p = λ paths.
    filter (λ t. not (is_empty t))
      (map (λ per_target. filter (λ h. not (is_empty h)) (map (filter p) per_target)) paths)

-- Indexing a `Vec`.
abbrev pub at_index {ℓ} : {A : Type ℓ} → List A → ℕ → Outcome A
at_index xs i = unwrap (get_elem? xs i)

unfoldable pub targets : DohPathManager → Outcome (List DohTarget)
targets pm =
    traverse (λ per_target. at_index per_target 0 >>= λ hop. at_index hop 0 >>= λ p. ok p.target)
      pm.paths

-- `rng.gen_range(0..n)` panics on an empty range; `draw i` stands for the i-th draw.
abbrev gen_range : (ℕ → ℕ → ℕ) → ℕ → ℕ → Outcome ℕ
gen_range draw i n = if n == 0 then panic else ok (draw i n)

-- `get_path` from the draws on, over the healthy paths.
choose_from : (ℕ → ℕ → ℕ) → DohPathManager → List (List (List DohPath)) → Outcome DohPath
choose_from draw pm healthy_paths = do
  target_idx ← if pm.target_randomization then gen_range draw 0 (length healthy_paths) else ok 0
  per_target ← at_index healthy_paths target_idx
  nexthop_idx ← if pm.nexthop_randomization then gen_range draw 1 (length per_target) else ok 0
  per_hop ← at_index per_target nexthop_idx
  path_idx ← gen_range draw 2 (length per_hop)
  at_index per_hop path_idx

unfoldable pub get_path : (ℕ → ℕ → ℕ) → DohPathManager → Outcome (Option DohPath)
unfolding choose_from
get_path draw pm =
    let healthy_paths = prune (λ (p : DohPath). p.is_healthy) pm.paths in
    if is_empty healthy_paths
    then ok none
    else (choose_from draw pm healthy_paths >>= λ p. ok (some p))

module _ (U : UrlLib) where
  open U use {Url, parse, set_scheme, set_path, append_pair}

  -- The loop over the relays after the next hop, numbered from 1.
  append_relays : Url → List (ℕ × DohRelay) → Url
  append_relays url [] = url
  append_relays url ((idx, relay) ∷ rest) =
      append_relays
        (append_pair
          (append_pair url (codes "relayhost[" ++ (show (idx + 1) ++ codes "]")) relay.authority)
          (codes "relaypath[" ++ (show (idx + 1) ++ codes "]")) relay.path)
        rest

  as_url_standard : DohPath → Outcome Url
  as_url_standard p = if not (is_empty p.relays) then err failed_to_build_doh_url else do
    url ← ok_or url_error (parse p.target.authority)
    url' ← unwrap (set_scheme url (scheme_str p.target.scheme))
    ok (set_path url' p.target.path)

  as_url_oblivious : DohPath → List DohRelay → Outcome Url
  as_url_oblivious p [] = err failed_to_build_doh_url
  as_url_oblivious p (hop ∷ rest) =
      if not hop.can_be_next_hop then err failed_to_build_doh_url else do
        url ← ok_or url_error (parse (scheme_str hop.scheme ++ (codes "://" ++ hop.authority)))
        let url1 = append_pair (set_path url hop.path) (codes "targethost") p.target.authority
        let url2 = append_pair url1 (codes "targetpath") p.target.path
        ok (append_relays url2 (take (length p.relays - 1) (enumerate_from 0 rest)))

  -- `DoHPath::as_url`.
  unfoldable pub as_url : DohPath → Outcome Url
  unfolding append_relays as_url_standard as_url_oblivious
  as_url p = elim p.doh_type [
    | standard ↦ as_url_standard p
    | oblivious ↦ as_url_oblivious p p.relays
  ]
