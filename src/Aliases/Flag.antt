-- ===== src/Aliases/Flag.antt =====
-- The flag --model-alias that app/args.go writes, and how ParseModelAliases of
-- pkg/router/aliases.go reads it.
use Prim.Native.Char.{Char, code}
use Prim.Native.String.{◌++◌ as append}
use text.Mathlib.TextEquality.{eq_iff}
use text.Mathlib.TextLemmas.{nil-append, cons-append, cons-ne-nil}
use mathlib.Core.List.{append_assoc, append-nil}
use infermesh.Prelude.{
  ℕ, ◌≡◌, refl, ap, ◌∙◌, String, Bool, true, false, not, ◌&&◌, Option, none, some, List, [], ◌∷◌,
  ◌++◌, arith, str_eq, Map, insert, All, Fresh, Distinct, Entries,
}
use infermesh.Aliases.{
  AliasTarget, ModelAliasConfig, config_of, put_alias, is_char, split, cut, trim_left, before_right,
  trim_right, trim_space, put_cut, parse_parts, parse_model_aliases, alias_parts, join, alias_flag,
}

-- The character does not stand in the text.
abbrev pub lacks : ℕ → String → Bool
lacks n String.[] = true
lacks n (String.◌∷◌ c s) = not (is_char n c) && lacks n s

str_eq-cons : (c : Char) (s : String) → str_eq (String.◌∷◌ c s) "" ≡ false
str_eq-cons c s = ground (arith, eq_iff (String.◌∷◌ c s) "", cons-ne-nil c s)

-- A text of one character before another text.
append-one : (c : Char) (s : String) → append (String.◌∷◌ c String.[]) s ≡ String.◌∷◌ c s
append-one c s = cons-append c String.[] s ∙ ap (λ t. String.◌∷◌ c t) (nil-append s)

cut-append :
    (key rest : String)
    → lacks b'=' key ≡ true
    → cut b'=' (append key (append "=" rest)) ≡ some (key, rest)
unfolding cut
cut-append String.[] rest h =
    ap (cut b'=') (nil-append (append "=" rest) ∙ append-one "=" rest) ∙ refl
cut-append (String.◌∷◌ c s) rest h =
    ap (cut b'=') (cons-append c s (append "=" rest)) ∙ ground (arith, h, cut-append s rest)

split_one : (s : String) → lacks b',' s ≡ true → split b',' s ≡ s ∷ []
unfolding split
split_one String.[] h = refl
split_one (String.◌∷◌ c s) h = ground (arith, h, split_one s)

split-append :
    (s t : String) → lacks b',' s ≡ true → split b',' (append s (append "," t)) ≡ s ∷ split b',' t
unfolding split
split-append String.[] t h = ap (split b',') (nil-append (append "," t) ∙ append-one "," t) ∙ refl
split-append (String.◌∷◌ c s) t h =
    ap (split b',') (cons-append c s (append "," t)) ∙ ground (arith, h, split-append s t)

lacks-append :
    (n : ℕ) (s t : String) → lacks n s ≡ true → lacks n t ≡ true → lacks n (append s t) ≡ true
lacks-append n String.[] t h k = ap (lacks n) (nil-append t) ∙ k
lacks-append n (String.◌∷◌ c s) t h k =
    ap (lacks n) (cons-append c s t) ∙ ground (arith, h, k, lacks-append n s t)

-- The entries as the router holds them.
abbrev pub targets : Map String → Map AliasTarget
targets [] = []
targets ((alias, canonical) ∷ rest) = (alias, record { canonical = canonical }) ∷ targets rest

insert-new :
    (key : String) (target : AliasTarget) (aliases : Map AliasTarget)
    → Fresh key aliases
    → insert key target aliases ≡ aliases ++ (key, target) ∷ []
unfolding insert
insert-new key target [] h = refl
insert-new key target ((k, v) ∷ rest) h =
    rw h.0 (ap (λ m. (k, v) ∷ m) (insert-new key target rest h.1))

-- No key of the second map is in the first.
abbrev Apart : Map AliasTarget → Map String → Type 0
Apart aliases [] = Unit
Apart aliases ((alias, canonical) ∷ rest) = Fresh alias aliases × Apart aliases rest

Fresh-append :
    (key other : String) (target : AliasTarget) (aliases : Map AliasTarget)
    → Fresh key aliases
    → str_eq other key ≡ false
    → Fresh key (aliases ++ (other, target) ∷ [])
Fresh-append key other target [] h k = (k, tt)
Fresh-append key other target ((j, v) ∷ rest) h k = (h.0, Fresh-append key other target rest h.1 k)

Apart-append :
    (alias : String) (target : AliasTarget) (aliases : Map AliasTarget) (rest : Map String)
    → Fresh alias rest
    → Apart aliases rest
    → Apart (aliases ++ (alias, target) ∷ []) rest
Apart-append alias target aliases [] f h = tt
Apart-append alias target aliases ((k, c) ∷ rest) f h = (
  Fresh-append k alias target aliases h.0 (ground (arith, f.0, eq_iff alias k, eq_iff k alias)),
  Apart-append alias target aliases rest f.1 h.1,
)

split-join :
    (part : String) (parts : List String)
    → All (λ s. lacks b',' s ≡ true) (part ∷ parts)
    → split b',' (join (part ∷ parts)) ≡ part ∷ parts
unfolding join
split-join part [] h = split_one part h.0
split-join part (next ∷ parts) h =
    split-append part (join (next ∷ parts)) h.0 ∙ ap (λ s. part ∷ s) (split-join next parts h.1)

module _ (is_space : ℕ → Bool) where
  -- The text is not empty and does not start with a space.
  abbrev pub starts_clean : String → Bool
  starts_clean String.[] = false
  starts_clean (String.◌∷◌ c s) = not (is_space (code c))

  -- The text is not empty, and strings.TrimSpace leaves it as it is.
  abbrev pub IsTrimmed : String → Type 0
  IsTrimmed s = (starts_clean s ≡ true) × (trim_right is_space s ≡ s)

  -- An entry that a flag can carry: trimmed parts without commas, and an alias without `=`.
  abbrev pub IsPlain : String → String → Type 0
  IsPlain alias canonical =
      IsTrimmed alias
      × IsTrimmed canonical
      × (lacks b',' alias ≡ true)
      × (lacks b',' canonical ≡ true)
      × (lacks b'=' alias ≡ true)

  trim_left_clean : (s : String) → starts_clean s ≡ true → trim_left is_space s ≡ s
  unfolding trim_left
  trim_left_clean String.[] h = refl
  trim_left_clean (String.◌∷◌ c s) h = ground (arith, h)

  trim_space-IsTrimmed : (s : String) → IsTrimmed s → trim_space is_space s ≡ s
  unfolding trim_space
  trim_space-IsTrimmed s h = rw (trim_left_clean s h.0) h.1

  clean-not_empty : (s : String) → starts_clean s ≡ true → str_eq s "" ≡ false
  clean-not_empty String.[] h = absurd (ground (arith, h))
  clean-not_empty (String.◌∷◌ c s) h = str_eq-cons c s

  starts_clean-append : (s t : String) → starts_clean s ≡ true → starts_clean (append s t) ≡ true
  starts_clean-append String.[] t h = absurd (ground (arith, h))
  starts_clean-append (String.◌∷◌ c s) t h = ap starts_clean (cons-append c s t) ∙ h

  trim_right-clean :
      (s : String) → starts_clean s ≡ true → str_eq (trim_right is_space s) "" ≡ false
  unfolding trim_right
  trim_right-clean String.[] h = absurd (ground (arith, h))
  trim_right-clean (String.◌∷◌ c s) h = go (trim_right is_space s)
    where
      go : (t : String) → str_eq (before_right is_space c t) "" ≡ false
      go String.[] = ground (arith, h, str_eq-cons c "")
      go (String.◌∷◌ d t) = str_eq-cons c (String.◌∷◌ d t)

  trim_right-cons :
      (c : Char) (t : String)
      → starts_clean t ≡ true
      → trim_right is_space t ≡ t
      → trim_right is_space (String.◌∷◌ c t) ≡ String.◌∷◌ c t
  unfolding trim_right
  trim_right-cons c String.[] h k = absurd (ground (arith, h))
  trim_right-cons c (String.◌∷◌ d t) h k = ap (before_right is_space c) k

  before_right-append :
      (d : Char) (s : String) (c : Char) (t : String)
      → before_right is_space d (append s (String.◌∷◌ c t))
        ≡ String.◌∷◌ d (append s (String.◌∷◌ c t))
  before_right-append d String.[] c t = rw (nil-append (String.◌∷◌ c t)) refl
  before_right-append d (String.◌∷◌ e s) c t = rw (cons-append e s (String.◌∷◌ c t)) refl

  trim_right-append :
      (s : String) (c : Char) (t : String)
      → trim_right is_space (String.◌∷◌ c t) ≡ String.◌∷◌ c t
      → trim_right is_space (append s (String.◌∷◌ c t)) ≡ append s (String.◌∷◌ c t)
  unfolding trim_right
  trim_right-append String.[] c t h = rw (nil-append (String.◌∷◌ c t)) h
  trim_right-append (String.◌∷◌ d s) c t h =
      rw (cons-append d s (String.◌∷◌ c t), trim_right)
        (ap (before_right is_space d) (trim_right-append s c t h) ∙ before_right-append d s c t)

  part-IsTrimmed :
      (alias canonical : String)
      → IsPlain alias canonical
      → IsTrimmed (append alias (append "=" canonical))
  part-IsTrimmed alias canonical h = (
    starts_clean-append alias (append "=" canonical) h.0.0,
    rw (append-one "=" canonical)
        (trim_right-append alias "=" canonical (trim_right-cons "=" canonical h.1.0 h.1.1)),
  )

  -- One turn of the loop of `ParseModelAliases`.
  put_part :
      (alias canonical : String) (aliases : Map AliasTarget)
      → IsPlain alias canonical
      → put_cut is_space (cut b'=' (append alias (append "=" canonical))) aliases
        ≡ insert alias (record { canonical = canonical }) aliases
  unfolding put_cut put_alias
  put_part alias canonical aliases h =
      rw
        (
          cut-append alias canonical h.4,
          trim_space-IsTrimmed alias h.0,
          trim_space-IsTrimmed canonical h.1,
          clean-not_empty alias h.0.0,
          clean-not_empty canonical h.1.0,
        )
        refl

  alias_parts-cons :
      (alias canonical : String) (m : Map String)
      → IsPlain alias canonical
      → alias_parts ((alias, canonical) ∷ m) ≡ append alias (append "=" canonical) ∷ alias_parts m
  unfolding alias_parts
  alias_parts-cons alias canonical m h =
      rw (clean-not_empty alias h.0.0, clean-not_empty canonical h.1.0) refl

  alias_parts-lacks :
      (m : Map String) → Entries IsPlain m → All (λ s. lacks b',' s ≡ true) (alias_parts m)
  unfolding alias_parts
  alias_parts-lacks [] p = tt
  alias_parts-lacks ((alias, canonical) ∷ m) p = rw (alias_parts-cons alias canonical m p.0) (
    lacks-append b',' alias (append "=" canonical) p.0.2
        (lacks-append b',' "=" canonical refl p.0.3),
    alias_parts-lacks m p.1,
  )

  parse_parts-alias_parts :
      (m : Map String) (aliases : Map AliasTarget)
      → Entries IsPlain m
      → Distinct m
      → Apart aliases m
      → parse_parts is_space (alias_parts m) aliases ≡ aliases ++ targets m
  unfolding parse_parts alias_parts
  parse_parts-alias_parts [] aliases p d h = rw append-nil refl
  parse_parts-alias_parts ((alias, canonical) ∷ m) aliases p d h =
      let part = append alias (append "=" canonical) in
      let whole = part-IsTrimmed alias canonical p.0 in
      let target : AliasTarget = record { canonical = canonical } in
      rw
        (
          alias_parts-cons alias canonical m p.0,
          parse_parts,
          trim_space-IsTrimmed part whole,
          clean-not_empty part whole.0,
          put_part alias canonical aliases p.0,
          insert-new alias target aliases h.0,
        )
        (parse_parts-alias_parts m (aliases ++ (alias, target) ∷ []) p.1 d.1
            (Apart-append alias target aliases m d.0 h.1)
          ∙ append_assoc aliases ((alias, target) ∷ []) (targets m))

  Apart-nil : (m : Map String) → Apart [] m
  Apart-nil [] = tt
  Apart-nil ((alias, canonical) ∷ m) = (tt, Apart-nil m)

  -- A flag is written for the entries, and the router reads them back.
  abbrev pub read_back : Option String → Option ModelAliasConfig
  read_back none = none
  read_back (some flag) = parse_model_aliases is_space flag

  joined_clean :
      (part : String) (parts : List String)
      → starts_clean part ≡ true
      → starts_clean (join (part ∷ parts)) ≡ true
  unfolding join
  joined_clean part [] h = h
  joined_clean part (next ∷ parts) h = starts_clean-append part (append "," (join (next ∷ parts))) h

  read_back-parts :
      (part : String) (parts : List String)
      → starts_clean part ≡ true
      → All (λ s. lacks b',' s ≡ true) (part ∷ parts)
      → parse_model_aliases is_space (join (part ∷ parts))
        ≡ config_of (parse_parts is_space (part ∷ parts) [])
  unfolding parse_model_aliases trim_space
  read_back-parts part parts c h =
      let clean = joined_clean part parts c in
      rw
        (
          trim_left_clean (join (part ∷ parts)) clean,
          trim_right-clean (join (part ∷ parts)) clean,
          split-join part parts h,
        )
        refl

  -- The router reads from the flag that the desktop application writes exactly the aliases of the
  -- settings, in their order, where these are a map (no alias twice) whose names have no space around
  -- them and no comma, and whose aliases have no `=`; canonical names may have one. No flag is written
  -- for an empty map, and no configuration results.
  pub parse_model_aliases-alias_flag :
      (m : Map String)
      → Entries IsPlain m
      → Distinct m
      → read_back (alias_flag m) ≡ config_of (targets m)
  unfolding alias_flag
  parse_model_aliases-alias_flag [] p d = unfold alias_parts in refl
  parse_model_aliases-alias_flag ((alias, canonical) ∷ m) p d =
      let part = append alias (append "=" canonical) in
      let e = alias_parts-cons alias canonical m p.0 in
      rw e (
        read_back-parts part (alias_parts m) (part-IsTrimmed alias canonical p.0).0
          (rw e at (alias_parts-lacks ((alias, canonical) ∷ m) p))
        ∙ ap config_of (
            rw e at (
              parse_parts-alias_parts ((alias, canonical) ∷ m) [] p d
                (Apart-nil ((alias, canonical) ∷ m)))))
