-- ===== src/Aliases.antt =====
-- pkg/router/aliases.go: names that clients may use for models; and the flag --model-alias that
-- app/args.go writes for the router, which ParseModelAliases reads. Texts are walked by characters:
-- strings.Split, Index, Join and TrimSpace are the functions below, over `is_space`, which is
-- unicode.IsSpace. A loop over a map follows a list.
pub mod Resolve
pub mod Flag
mod Examples
use Prim.Native.Char.{Char, code}
use Prim.Native.String.{◌++◌ as append}
use infermesh.Prelude.{
  ℕ, String, Bool, true, false, ◌&&◌, ◌||◌, Option, none, some, List, [], ◌∷◌, ◌==◌, str_eq,
  if◌then◌else◌, Map, lookup, insert,
}

pub record AliasTarget : Type 0 where
  pub canonical : String

pub record ModelAliasConfig : Type 0 where
  pub aliases : Map AliasTarget

-- A nil configuration where no alias is left.
abbrev pub config_of : Map AliasTarget → Option ModelAliasConfig
config_of [] = none
config_of (entry ∷ rest) = some (record { aliases = entry ∷ rest })

-- The bodies of both loops, after the trimming: an entry with an empty part is skipped.
unfoldable pub put_alias : String → String → Map AliasTarget → Map AliasTarget
put_alias alias canonical aliases =
    if str_eq alias "" || str_eq canonical ""
    then aliases
    else insert alias (record { canonical = canonical }) aliases

unfoldable pub put_aliases : (String → String) → Map String → Map AliasTarget → Map AliasTarget
unfolding put_alias
put_aliases trim [] aliases = aliases
put_aliases trim ((alias, canonical) ∷ raw) aliases =
    put_aliases trim raw (put_alias (trim alias) (trim canonical) aliases)

-- `buildAliasConfig`; `trim` is strings.TrimSpace.
unfoldable pub build_alias_config : (String → String) → Map String → Option ModelAliasConfig
unfolding put_aliases
build_alias_config trim raw = config_of (put_aliases trim raw [])

-- The loop of `modelAliasesActive`.
unfoldable pub any_canonical : Map AliasTarget → Bool
any_canonical [] = false
any_canonical ((alias, target) ∷ aliases) =
    let rest = any_canonical aliases in if str_eq target.canonical "" then rest else true

unfoldable pub model_aliases_active : Option ModelAliasConfig → Bool
unfolding any_canonical
model_aliases_active none = false
model_aliases_active (some cfg) = any_canonical cfg.aliases

-- The answer of `resolveAliasModel` to what the map holds for the model.
unfoldable pub target_or : String → Option AliasTarget → String
target_or model none = model
target_or model (some target) = if str_eq target.canonical "" then model else target.canonical

-- `resolveAliasModel` of pkg/router/server.go.
unfoldable pub resolve_alias_model : Option ModelAliasConfig → String → String
unfolding any_canonical target_or
resolve_alias_model none model = model
resolve_alias_model (some cfg) model =
    if any_canonical cfg.aliases then target_or model (lookup model cfg.aliases) else model

-- The character `,` or `=` of a text.
abbrev pub is_char : ℕ → Char → Bool
is_char n c = code c == n

-- What strings.Split puts before its first separator.
abbrev pub onto_first : Char → List String → List String
onto_first c [] = (String.◌∷◌ c String.[]) ∷ []
onto_first c (s ∷ rest) = (String.◌∷◌ c s) ∷ rest

-- `strings.Split(s, sep)` for a separator of one character.
unfoldable pub split : ℕ → String → List String
split sep String.[] = String.[] ∷ []
split sep (String.◌∷◌ c s) =
    let rest = split sep s in if is_char sep c then String.[] ∷ rest else onto_first c rest

abbrev pub grown : Char → Option (String × String) → Option (String × String)
grown c none = none
grown c (some (key, rest)) = some (String.◌∷◌ c key, rest)

-- The parts before and after the first separator: strings.Index and the two slices.
unfoldable pub cut : ℕ → String → Option (String × String)
cut sep String.[] = none
cut sep (String.◌∷◌ c s) =
    let rest = cut sep s in if is_char sep c then some (String.[], s) else grown c rest

module _ (is_space : ℕ → Bool) where
  unfoldable pub trim_left : String → String
  trim_left String.[] = String.[]
  trim_left (String.◌∷◌ c s) =
      let rest = trim_left s in if is_space (code c) then rest else String.◌∷◌ c s

  -- A character before what is left of the rest.
  abbrev pub before_right : Char → String → String
  before_right c String.[] = if is_space (code c) then String.[] else String.◌∷◌ c String.[]
  before_right c (String.◌∷◌ d s) = String.◌∷◌ c (String.◌∷◌ d s)

  unfoldable pub trim_right : String → String
  trim_right String.[] = String.[]
  trim_right (String.◌∷◌ c s) = before_right c (trim_right s)

  -- `strings.TrimSpace`
  unfoldable pub trim_space : String → String
  unfolding trim_left trim_right
  trim_space s = trim_right (trim_left s)

  -- The body of the loop of `ParseModelAliases`, at what Index and the slices give.
  unfoldable pub put_cut : Option (String × String) → Map AliasTarget → Map AliasTarget
  unfolding put_alias trim_space
  put_cut none aliases = aliases
  put_cut (some (key, canonical)) aliases =
      put_alias (trim_space key) (trim_space canonical) aliases

  unfoldable pub parse_parts : List String → Map AliasTarget → Map AliasTarget
  unfolding put_cut trim_space cut
  parse_parts [] aliases = aliases
  parse_parts (part ∷ parts) aliases = parse_parts parts (
      if str_eq (trim_space part) "" then aliases else put_cut (cut b'=' (trim_space part)) aliases)

  unfoldable pub parse_model_aliases : String → Option ModelAliasConfig
  unfolding parse_parts trim_space split
  parse_model_aliases s =
      if str_eq (trim_space s) "" then none else config_of (parse_parts (split b',' s) [])

-- The loop of `buildRouterArgs` over the aliases of the settings.
unfoldable pub alias_parts : Map String → List String
alias_parts [] = []
alias_parts ((alias, canonical) ∷ rest) =
    let parts = alias_parts rest in
    if str_eq alias "" || str_eq canonical ""
    then parts
    else append alias (append "=" canonical) ∷ parts

-- `strings.Join(parts, ",")`
unfoldable pub join : List String → String
join [] = ""
join (part ∷ []) = part
join (part ∷ next ∷ parts) = append part (append "," (join (next ∷ parts)))

-- The value of the flag --model-alias, where it is written.
abbrev pub flag_of : List String → Option String
flag_of [] = none
flag_of (part ∷ parts) = some (join (part ∷ parts))

unfoldable pub alias_flag : Map String → Option String
unfolding alias_parts
alias_flag aliases = flag_of (alias_parts aliases)
