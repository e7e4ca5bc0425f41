-- ===== src/Tests/LegacyConfigRuns.antt =====
-- The plugins and the relays of the old proxy.
use doh_auth_proxy.Prelude.{◌≡◌, refl, true, none, some, [], ◌∷◌, ok, panic, arith}
use doh_auth_proxy.Text.{codes, pop, to_ascii_lowercase, byte_len, utf8_len}
use doh_auth_proxy.Config.{Anonymization, verify_target_url}
use doh_auth_proxy.Manipulation.Block.{in_blocklist, rule_of}
use doh_auth_proxy.Manipulation.Apply.{domain_override, domain_block, apply_all}
use doh_auth_proxy.Legacy.Plugins.{
  plugin_domain_block, plugin_domain_override, as_manipulation, execute, execute-eq-apply_all,
}
use doh_auth_proxy.Legacy.Context.{Settings}
use doh_auth_proxy.Legacy.Config.{set_anonymization}
use doh_auth_proxy.Legacy.Config.Laws.{
  HasEnoughRelays, set_anonymization-panics, set_anonymization-HasEnoughRelays,
}
use doh_auth_proxy.Tests.Toy.{toy_url}
use doh_auth_proxy.Tests.Message.{toy_hickory, toy_query}
use doh_auth_proxy.Tests.Libs.{toy_cedar_lib}
use doh_auth_proxy.Tests.RuleRuns.{key, rule, over}
use doh_auth_proxy.Tests.LegacyRuns.{settings}

-- Relays without a number for them.
abbrev unnumbered : Anonymization
unnumbered = record {
  odoh_relay_urls = some (codes "r:1" ∷ []);
  odoh_relay_randomization = none;
  mid_relay_urls = some (codes "m:1" ∷ []);
  max_mid_relays = none;
}

valid : verify_target_url toy_url (codes "r:1") ≡ true
unfolding verify_target_url
valid = refl

set_anonymization-panics_example :
    set_anonymization toy_url toy_cedar_lib true (some unnumbered) settings ≡ panic
unfolding verify_target_url
set_anonymization-panics_example =
    set_anonymization-panics toy_url toy_cedar_lib unnumbered (codes "r:1" ∷ []) (codes "m:1" ∷ [])
      settings refl refl refl refl (omega arith) refl

abbrev numbered : Settings toy_cedar_lib
numbered = record settings {
  odoh_relay_urls = some (codes "r:1" ∷ []);
  mid_relay_urls = some (codes "m:1" ∷ []);
  max_mid_relays = 1;
}

accepted :
    set_anonymization toy_url toy_cedar_lib true
      (some (record unnumbered { max_mid_relays = some 1 }))
      settings
    ≡ ok numbered
unfolding set_anonymization verify_target_url
accepted = refl

set_anonymization-HasEnoughRelays_example : HasEnoughRelays toy_url toy_cedar_lib numbered
set_anonymization-HasEnoughRelays_example =
    set_anonymization-HasEnoughRelays toy_url toy_cedar_lib true
      (some (record unnumbered { max_mid_relays = some 1 })) settings numbered refl accepted

is_listed : in_blocklist toy_cedar_lib rule key ≡ ok true
unfolding in_blocklist pop to_ascii_lowercase rule_of byte_len utf8_len
is_listed = refl

execute-eq-apply_all_example :
    as_manipulation toy_hickory toy_cedar_lib (toy_query 3 (codes "a.b.")) key 10 (
      execute toy_hickory toy_cedar_lib
        (toy_query 3 (codes "a.b."))
        key
        10
        (plugin_domain_block rule ∷ plugin_domain_override over.inner ∷ []))
    ≡ apply_all toy_hickory toy_cedar_lib
        (domain_override (record { inner = over.inner; min_ttl = 10 }) ∷ domain_block rule ∷ [])
        (toy_query 3 (codes "a.b."))
        key
execute-eq-apply_all_example =
    execute-eq-apply_all toy_hickory toy_cedar_lib (toy_query 3 (codes "a.b.")) key 10 rule
      over.inner true is_listed
