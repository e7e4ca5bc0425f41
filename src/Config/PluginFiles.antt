-- ===== src/Config/PluginFiles.antt =====
-- dap-bin/src/config/plugins.rs: the lists of the plugin files. `current_dir`, `join` of paths and
-- `read_to_string` are those of the operating system, with nothing where they fail.
use doh_auth_proxy.Prelude.{
  ℕ, zero, suc, ◌≡◌, refl, ap, ◌∙◌, false, not, Option, none, some, List, [], ◌∷◌, ◌++◌, map,
  Outcome, ok, ◌>>=◌, other, ok_or, if◌then◌else◌, is_empty, filter, ◌==◌, All, ◌&&◌,
}
use doh_auth_proxy.Text.{Text}
use doh_auth_proxy.Globals.{QueryManipulationConfig, query_manipulation_default}
use doh_auth_proxy.Config.{Plugins, ConfigToml, is_some}

-- A character before the first piece.
abbrev grow : ℕ → List Text → List Text
grow c [] = (c ∷ []) ∷ []
grow c (piece ∷ pieces) = (c ∷ piece) ∷ pieces

-- `str::split` at a character.
unfoldable pub split : ℕ → Text → List Text
split at [] = [] ∷ []
split at (c ∷ s) = let rest = split at s in if c == at then [] ∷ rest else grow c rest

unfoldable pub truncate_vec : Text → List Text
unfolding split
truncate_vec content = filter (λ c. not (is_empty c)) (split b'\n' content)

-- `TargetConfig` of the command: the parsed file with the lists of its plugins.
pub record TargetConfig : Type 0 where
  pub config_toml : ConfigToml
  pub query_manipulation_config : Option QueryManipulationConfig

module _ (current_dir : Option Text) (join : Text → Text → Text)
    (read_to_string : Text → Option Text) where
  unfoldable pub read_plugin_file : Text → Outcome (List Text)
  unfolding truncate_vec
  read_plugin_file path = ok_or other (read_to_string path) >>= λ content. ok (truncate_vec content)

  -- The list of one plugin, where the file is named.
  read_list : Option Text → Outcome (Option (List Text))
  unfolding read_plugin_file
  read_list none = ok none
  read_list (some file) = do
    dir ← ok_or other current_dir
    lines ← read_plugin_file (join dir file)
    ok (some lines)

  read_plugins : Plugins → Outcome (Option QueryManipulationConfig)
  unfolding read_list query_manipulation_default
  read_plugins p =
      if not (is_some p.domains_overridden_file) && not (is_some p.domains_blocked_file)
      then ok none
      else (do
        overridden ← read_list p.domains_overridden_file
        blocked ← read_list p.domains_blocked_file
        ok (
            some (record query_manipulation_default {
              domain_override = overridden;
              domain_block = blocked;
            })))

  -- `TryFrom<&ConfigToml>` for the configuration of the query manipulation.
  unfoldable pub query_manipulation : ConfigToml → Outcome (Option QueryManipulationConfig)
  unfolding read_plugins
  query_manipulation t = elim t.plugins [ none ↦ ok none | some p ↦ read_plugins p ]

  -- `TargetConfig::new`, and `reload` up to the error that it gives. Reading and parsing the file
  -- with `toml` is an argument.
  unfoldable pub load : (Text → Outcome ConfigToml) → Text → Outcome TargetConfig
  unfolding query_manipulation
  load config_toml_new config_file = do
    toml ← config_toml_new config_file
    manipulation ← query_manipulation toml
    ok (record { config_toml = toml; query_manipulation_config = manipulation })

-- Lines with the number of blank lines behind each.
abbrev blank_lines : ℕ → Text → Text
blank_lines zero rest = rest
blank_lines (suc n) rest = b'\n' ∷ blank_lines n rest

abbrev pub written : List (Text × ℕ) → Text
written [] = []
written ((line, n) ∷ rest) = line ++ (b'\n' ∷ blank_lines n (written rest))

-- A line that is not blank.
abbrev pub IsLine : Text → Type 0
IsLine line = (is_empty line ≡ false) × All (λ c. (c == b'\n') ≡ false) line

split-line :
    (line rest : Text)
    → All (λ c. (c == b'\n') ≡ false) line
    → split b'\n' (line ++ b'\n' ∷ rest) ≡ line ∷ split b'\n' rest
unfolding split
split-line [] rest h = refl
split-line (c ∷ line) rest (n, h) = rw (n, split-line line rest h)

truncate_vec-blank : (n : ℕ) (rest : Text) → truncate_vec (blank_lines n rest) ≡ truncate_vec rest
unfolding truncate_vec split
truncate_vec-blank zero rest = refl
truncate_vec-blank (suc n) rest = truncate_vec-blank n rest

-- Whatever lines are written to a file, none of them blank, and whatever number of blank lines
-- behind each, the lines that are read are the lines that were written, in their order.
pub truncate_vec-written :
    (ls : List (Text × ℕ))
    → All (λ (l : Text × ℕ). IsLine l.0) ls
    → truncate_vec (written ls) ≡ map (λ l. l.0) ls
unfolding truncate_vec split
truncate_vec-written [] h = refl
truncate_vec-written ((line, n) ∷ ls) ((some_text, one_line), h) =
    rw (split-line line (blank_lines n (written ls)) one_line, some_text)
      (ap (◌∷◌ line) (truncate_vec-blank n (written ls) ∙ truncate_vec-written ls h))
