-- ===== src/Routing/Classifier.antt =====
-- pkg/router/classifier.go: the tier of a request. Package strings is the record `Text` and the regular
-- expressions are the record `Patterns`, each with the functions that the classifier calls. The integers
-- of Go do not wrap.
pub mod Monotone
use Prim.Native.String.{◌++◌ as append}
use infermesh.Prelude.{
  ℕ, zero, suc, ◌+◌, ◌-◌, ◌/◌, ◌==◌, ltb, leb, String, Bool, true, false, ◌&&◌, ◌||◌, Option, none,
  some, List, [], ◌∷◌, if◌then◌else◌, str_eq, length, ℤ, pos, negsuc, ◌+ℤ◌, int_leb, int_ltb,
  pos_part,
}
use infermesh.Routing.{
  ComplexityTier, tier_simple, tier_medium, tier_hard, tier_hardest, tier_complex, tier_eq,
  AutoRoutingConfig, or_default,
}

-- `len` is in bytes; `runes` are the code points.
pub record Text : Type 0 where
  pub len : String → ℕ
  pub to_lower : String → String
  pub contains : String → String → Bool
  pub split_lines : String → List String
  pub runes : String → List ℕ

pub record Patterns : Type 0 where
  pub code_block : String → Bool
  pub math_notation : String → Bool
  pub numbered_list : String → Bool
  pub bullet_points : String → Bool
  pub few_shot_patterns : String → Bool
  pub role_patterns : String → Bool
  pub why_how_questions : String → ℕ
  pub what_when_questions : String → ℕ

-- What the classifier reads of a `ChatRequest`: the contents of the messages.
pub record ChatRequest : Type 0 where
  pub contents : List String
  pub max_tokens : ℤ

pub record StructuralSignals : Type 0 where
  pub has_code_blocks : Bool
  pub has_math_notation : Bool
  pub has_numbered_list : Bool
  pub has_bullet_points : Bool
  pub has_nested_structure : Bool

abbrev pub default_reasoning_phrases : List String
default_reasoning_phrases =
    "explain why" ∷ "explain how" ∷ "analyze the" ∷ "compare and contrast" ∷ "evaluate the"
    ∷ "critique" ∷ "prove that" ∷ "show that" ∷ "demonstrate" ∷ "think step by step"
    ∷ "chain of thought" ∷ "work through this" ∷ "walk me through" ∷ "what would happen if"
    ∷ "what if" ∷ "why does" ∷ "how does" ∷ "how would" ∷ "reason through" ∷ "logical reasoning"
    ∷ "step-by-step" ∷ "show your work" ∷ "derive the" ∷ "calculate the" ∷ []

abbrev pub default_simple_phrases : List String
default_simple_phrases =
    "summarize" ∷ "rewrite" ∷ "paraphrase" ∷ "translate to" ∷ "what is" ∷ "who is" ∷ "when did"
    ∷ "where is" ∷ "list the" ∷ "give me" ∷ "tell me" ∷ "define" ∷ "convert" ∷ "format"
    ∷ "fix the typo" ∷ "spell check" ∷ "grammar check" ∷ "copy paste" ∷ "extract the" ∷ []

unfoldable pub estimate_tokens : Text → String → ℕ
estimate_tokens text s = if str_eq s "" then 0 else (text.len s + 4 - 1) / 4

-- The blanks and tabs at the front.
unfoldable pub indent_of : List ℕ → ℕ
indent_of [] = 0
indent_of (c ∷ cs) = let rest = indent_of cs in if c == 32 || c == 9 then suc rest else 0

unfoldable pub max_indent : Text → List String → ℕ → ℕ
unfolding indent_of
max_indent text [] m = m
max_indent text (line ∷ lines) m =
    let indent = indent_of (text.runes line) in
    max_indent text lines (if ltb m indent then indent else m)

unfoldable pub detect_structural_signals : Text → Patterns → String → StructuralSignals
unfolding max_indent
detect_structural_signals text pats content = record {
  has_code_blocks = pats.code_block content;
  has_math_notation = pats.math_notation content;
  has_numbered_list = pats.numbered_list content;
  has_bullet_points = pats.bullet_points content;
  has_nested_structure = leb 4 (max_indent text (text.split_lines content) 0);
}

unfoldable pub count_phrase_matches : Text → String → List String → ℕ
count_phrase_matches text content [] = 0
count_phrase_matches text content (phrase ∷ phrases) =
    let rest = count_phrase_matches text content phrases in
    if text.contains (text.to_lower content) (text.to_lower phrase) then suc rest else rest

unfoldable pub full_content : List String → String
full_content [] = ""
full_content (content ∷ contents) = append content (append " " (full_content contents))

abbrev pub or_phrases : List String → List String → List String
or_phrases [] phrases = phrases
or_phrases (p ∷ ps) phrases = p ∷ ps

abbrev pub reasoning_phrases_of : AutoRoutingConfig → List String
reasoning_phrases_of c =
    if length c.reasoning_keywords == 0
    then or_phrases c.reasoning_phrases default_reasoning_phrases
    else c.reasoning_phrases

abbrev pub simple_phrases_of : AutoRoutingConfig → List String
simple_phrases_of c =
    if length c.reasoning_keywords == 0
    then or_phrases c.simple_phrases default_simple_phrases
    else c.simple_phrases

abbrev pub one_if : Bool → ℤ
one_if b = if b then pos 1 else pos 0

-- Up where `a` is the larger, down where `b` is.
abbrev pub towards : ℕ → ℕ → ℤ
towards a b = if ltb b a then pos 1 else if ltb a b then negsuc 0 else pos 0

unfoldable pub structural_adjustment : StructuralSignals → ℤ
structural_adjustment s =
    one_if s.has_code_blocks
    +ℤ one_if s.has_math_notation
    +ℤ one_if (s.has_numbered_list || s.has_bullet_points)
    +ℤ one_if s.has_nested_structure

unfoldable pub compute_semantic_adjustment : Text → Patterns → AutoRoutingConfig → ChatRequest → ℤ
unfolding structural_adjustment detect_structural_signals count_phrase_matches full_content
compute_semantic_adjustment text pats c req =
    let content = full_content req.contents in
    structural_adjustment (detect_structural_signals text pats content)
    +ℤ towards (count_phrase_matches text content (reasoning_phrases_of c))
        (count_phrase_matches text content (simple_phrases_of c))
    +ℤ towards (pats.why_how_questions content) (pats.what_when_questions content)
    +ℤ one_if (pats.few_shot_patterns content)
    +ℤ one_if (pats.role_patterns content)

unfoldable pub classify_by_tokens : AutoRoutingConfig → ℕ → ComplexityTier
classify_by_tokens c tokens =
    if int_ltb (pos tokens) (or_default 200 c.simple_max_tokens)
    then tier_simple
    else if int_ltb (pos tokens) (or_default 600 c.medium_max_tokens)
    then tier_medium
    else tier_complex

unfoldable pub estimate_chat_tokens : Text → List String → ℕ
unfolding estimate_tokens
estimate_chat_tokens text [] = 0
estimate_chat_tokens text (content ∷ contents) =
    estimate_tokens text content + estimate_chat_tokens text contents

unfoldable pub has_keyword : Text → String → List String → Bool
has_keyword text content [] = false
has_keyword text content (kw ∷ kws) =
    let rest = has_keyword text content kws in
    if str_eq kw "" then rest else text.contains (text.to_lower content) (text.to_lower kw) || rest

unfoldable pub has_reasoning_keyword : Text → List String → List String → Bool
unfolding has_keyword
has_reasoning_keyword text keywords [] = false
has_reasoning_keyword text keywords (content ∷ contents) =
    has_keyword text content keywords || has_reasoning_keyword text keywords contents

abbrev pub ladder : Bool → List ComplexityTier
ladder true = tier_simple ∷ tier_medium ∷ tier_hard ∷ tier_hardest ∷ []
ladder false = tier_simple ∷ tier_medium ∷ tier_complex ∷ []

index_of : ComplexityTier → List ComplexityTier → Option ℕ
index_of t [] = none
index_of t (u ∷ us) =
    let rest = index_of t us in
    if tier_eq u t then some 0 else elim rest [ none ↦ none | some i ↦ some (suc i) ]

-- The place on a ladder of `n` steps.
abbrev pub clamp : ℕ → ℤ → ℕ
clamp n i = if int_ltb i (pos 0) then 0 else if int_leb (pos n) i then n - 1 else pos_part i

at_place : List ComplexityTier → ComplexityTier → ℕ → ComplexityTier
at_place [] t i = t
at_place (u ∷ us) t zero = u
at_place (u ∷ us) t (suc i) = at_place us t i

climbed : List ComplexityTier → ComplexityTier → ℤ → Option ℕ → ComplexityTier
unfolding at_place
climbed steps baseline adjust none = baseline
climbed steps baseline adjust (some base) =
    at_place steps baseline (clamp (length steps) (pos base +ℤ adjust))

-- `Classify` from the tokens and the adjustment on.
unfoldable pub climb : AutoRoutingConfig → ℕ → ℤ → ComplexityTier
unfolding climbed index_of classify_by_tokens
climb c tokens adjust =
    let baseline = classify_by_tokens c tokens in
    let steps = ladder c.use_four_tier_mode in
    climbed steps baseline adjust (index_of baseline steps)

unfoldable pub tokens_of : Text → ChatRequest → ℕ
unfolding estimate_chat_tokens
tokens_of text req =
    let tokens = estimate_chat_tokens text req.contents in
    if int_ltb (pos 500) req.max_tokens then tokens + 200 else tokens

unfoldable pub adjustment_of : Text → Patterns → AutoRoutingConfig → ChatRequest → ℤ
unfolding compute_semantic_adjustment has_reasoning_keyword
adjustment_of text pats c req =
    compute_semantic_adjustment text pats c req
    +ℤ one_if (
        ltb 0 (length c.reasoning_keywords)
        && has_reasoning_keyword text c.reasoning_keywords req.contents)

unfoldable pub classify : Text → Patterns → AutoRoutingConfig → ChatRequest → ComplexityTier
unfolding climb tokens_of adjustment_of
classify text pats c req = climb c (tokens_of text req) (adjustment_of text pats c req)

unfoldable pub classify_completion :
    Text → Patterns → AutoRoutingConfig → String → ℤ → ComplexityTier
unfolding classify
classify_completion text pats c prompt max_tokens =
    classify text pats c (record { contents = prompt ∷ []; max_tokens = max_tokens })
