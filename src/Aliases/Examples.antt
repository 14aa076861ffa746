-- ===== src/Aliases/Examples.antt =====
-- Runs of the aliases, and their theorems at inputs that meet the hypotheses.
use infermesh.Prelude.{ℕ, ◌≡◌, refl, String, Bool, some, [], ◌∷◌, ◌==◌, Map, lookup, insert}
use infermesh.Aliases.{
  config_of, put_alias, put_aliases, build_alias_config, any_canonical, target_or,
  resolve_alias_model, split, cut, trim_left, trim_right, trim_space, put_cut, parse_parts,
  parse_model_aliases, alias_parts, join, alias_flag,
}
use infermesh.Aliases.Resolve.{renamed, resolve_alias_model-build_alias_config}
use infermesh.Aliases.Flag.{targets, read_back, parse_model_aliases-alias_flag}

abbrev is_blank : ℕ → Bool
is_blank c = c == b' '

abbrev settings : Map String
settings = ("fast", "phi3@Q4=v2") ∷ ("big", "llama-70b") ∷ []

-- The flag that the application writes.
written : alias_flag settings ≡ some "fast=phi3@Q4=v2,big=llama-70b"
unfolding alias_flag alias_parts join
written = refl

-- A comma in a canonical name: the rest of the name is lost.
comma_lost :
    read_back is_blank (alias_flag (("fast", "phi3,Q4") ∷ []))
    ≡ some (record { aliases = ("fast", record { canonical = "phi3" }) ∷ [] })
unfolding alias_flag alias_parts join parse_model_aliases split cut parse_parts put_cut put_alias
    trim_space trim_left trim_right insert
comma_lost = refl

parse_model_aliases-alias_flag_example :
    read_back is_blank (alias_flag settings) ≡ config_of (targets settings)
unfolding trim_right
parse_model_aliases-alias_flag_example =
    parse_model_aliases-alias_flag is_blank settings
      (
        ((refl, refl), (refl, refl), refl, refl, refl),
        (((refl, refl), (refl, refl), refl, refl, refl), tt),
      )
      ((refl, tt), (tt, tt))

abbrev sent : Map String
sent = ("fast", " phi3 ") ∷ ("none", " ") ∷ (" fast", "phi4") ∷ []

later_entry : resolve_alias_model (build_alias_config (trim_space is_blank) sent) "fast" ≡ "phi4"
unfolding build_alias_config put_aliases put_alias resolve_alias_model any_canonical target_or
    trim_space trim_left trim_right insert lookup
later_entry = refl

resolve_alias_model-build_alias_config_example :
    resolve_alias_model (build_alias_config (trim_space is_blank) sent) "fast"
    ≡ renamed (trim_space is_blank) sent "fast" "fast"
resolve_alias_model-build_alias_config_example =
    resolve_alias_model-build_alias_config (trim_space is_blank) sent "fast"
