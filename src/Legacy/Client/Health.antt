-- ===== src/Legacy/Client/Health.antt =====
-- `health_check` of legacy/src/client/doh_client.rs. The packet of the query, from `build_query_a`
-- and `encode`, is an argument, and the address that a record of the type A holds, printed, is a
-- function of the record's data.
use doh_auth_proxy.Prelude.{
  ℕ, Bool, false, not, Option, none, some, List, Outcome, ok, err, ◌>>=◌, other, if◌then◌else◌,
  is_empty, is_yes, any,
}
use doh_auth_proxy.Text.{Text, codes, text_eq}
use doh_auth_proxy.Hickory.{Hickory}
use doh_auth_proxy.Dns.{is_response, decode}

module _ (H : Hickory) (a_to_string : H.RData → Option Text) where
  abbrev holds_target : H.Record → Bool
  holds_target answer = elim (H.record_data answer) [
    | none ↦ false
    | some r ↦ elim (a_to_string r) [ none ↦ false | some a ↦ text_eq a (codes "8.8.8.8") ]
  ]

  -- `ensure!`.
  abbrev ensure : Bool → Outcome (Unit {0})
  ensure b = if b then ok tt else err other

  -- What is ensured of the answer to the query.
  unfoldable pub health_of : List ℕ → Outcome (Unit {0})
  health_of res = do
    _ ← is_response H res
    r_msg ← decode H res
    _ ← ensure (is_yes (H.code_discrete (H.parts r_msg).response_code H.no_error))
    _ ← ensure (not (is_empty (H.parts r_msg).answers))
    ensure (any holds_target (H.parts r_msg).answers)
