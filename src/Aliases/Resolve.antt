-- ===== src/Aliases/Resolve.antt =====
-- The configuration that `buildAliasConfig` of pkg/router/aliases.go makes, as `resolveAliasModel` of
-- pkg/router/server.go reads it.
use text.Mathlib.TextEquality.{eq_iff}
use infermesh.Prelude.{
  ◌≡◌, refl, ap, ◌∙◌, String, Bool, false, ◌&&◌, not, [], ◌∷◌, arith, str_eq, if◌then◌else◌,
  Bool-cases, inl, inr, Map, lookup, lookup-insert, Entries, insert-Entries,
}
use infermesh.Aliases.{
  AliasTarget, config_of, put_alias, put_aliases, build_alias_config, any_canonical, target_or,
  resolve_alias_model,
}

-- An entry that counts for a model: its alias is the model, and neither part is empty, once trimmed.
abbrev pub counts_for : (String → String) → String → String → String → Bool
counts_for trim model alias canonical =
    str_eq (trim alias) model && not (str_eq (trim alias) "") && not (str_eq (trim canonical) "")

-- The last entry that counts for the model, or the model itself.
abbrev pub renamed : (String → String) → Map String → String → String → String
renamed trim [] model default = default
renamed trim ((alias, canonical) ∷ raw) model default =
    renamed trim raw model
      (if counts_for trim model alias canonical then trim canonical else default)

-- No target is empty.
abbrev AllFilled : Map AliasTarget → Type 0
AllFilled aliases = Entries (λ alias target. str_eq target.canonical "" ≡ false) aliases

put_alias-AllFilled :
    (alias canonical : String) (aliases : Map AliasTarget)
    → AllFilled aliases
    → AllFilled (put_alias alias canonical aliases)
unfolding put_alias
put_alias-AllFilled alias canonical aliases h = elim (Bool-cases (str_eq alias "")) [
  | inl e ↦ rw e h
  | inr e ↦ elim (Bool-cases (str_eq canonical "")) [
    | inl f ↦ rw (e, f) h
    | inr f ↦
        rw (e, f)
          (insert-Entries (λ a t. str_eq t.canonical "" ≡ false) alias
            (record { canonical = canonical }) aliases f h)
  ]
]

put_aliases-AllFilled :
    (trim : String → String) (raw : Map String) (aliases : Map AliasTarget)
    → AllFilled aliases
    → AllFilled (put_aliases trim raw aliases)
unfolding put_aliases
put_aliases-AllFilled trim [] aliases h = h
put_aliases-AllFilled trim ((alias, canonical) ∷ raw) aliases h =
    put_aliases-AllFilled trim raw (put_alias (trim alias) (trim canonical) aliases)
      (put_alias-AllFilled (trim alias) (trim canonical) aliases h)

target_or-put_alias :
    (model alias canonical : String) (aliases : Map AliasTarget)
    → target_or model (lookup model (put_alias alias canonical aliases)) ≡ (
        if str_eq alias model && not (str_eq alias "") && not (str_eq canonical "")
        then canonical
        else target_or model (lookup model aliases))
unfolding put_alias target_or
target_or-put_alias model alias canonical aliases = ground (
  arith,
  lookup-insert alias model (record { canonical = canonical }) aliases,
  eq_iff alias model,
)

target_or-put_aliases :
    (trim : String → String) (raw : Map String) (model : String) (aliases : Map AliasTarget)
    → target_or model (lookup model (put_aliases trim raw aliases))
      ≡ renamed trim raw model (target_or model (lookup model aliases))
unfolding put_aliases
target_or-put_aliases trim [] model aliases = refl
target_or-put_aliases trim ((alias, canonical) ∷ raw) model aliases =
    target_or-put_aliases trim raw model (put_alias (trim alias) (trim canonical) aliases)
    ∙ ap (renamed trim raw model) (target_or-put_alias model (trim alias) (trim canonical) aliases)

resolve_alias_model-config_of :
    (aliases : Map AliasTarget) (model : String)
    → AllFilled aliases
    → resolve_alias_model (config_of aliases) model ≡ target_or model (lookup model aliases)
unfolding resolve_alias_model any_canonical target_or lookup
resolve_alias_model-config_of [] model h = refl
resolve_alias_model-config_of ((alias, target) ∷ aliases) model h = rw h.0 refl

-- With the aliases that a client of POST /meta/aliases sends, a model is renamed by the last entry
-- whose trimmed alias is the model and whose parts are not empty once trimmed, to that entry's trimmed
-- canonical name; a model without such an entry keeps its name. (The order of the entries is that in
-- which the loop visits them.)
pub resolve_alias_model-build_alias_config :
    (trim : String → String) (raw : Map String) (model : String)
    → resolve_alias_model (build_alias_config trim raw) model ≡ renamed trim raw model model
unfolding build_alias_config lookup target_or
resolve_alias_model-build_alias_config trim raw model =
    resolve_alias_model-config_of (put_aliases trim raw []) model
      (put_aliases-AllFilled trim raw [] tt)
    ∙ target_or-put_aliases trim raw model []
