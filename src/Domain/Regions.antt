-- ===== src/Domain/Regions.antt =====
-- src/domain/rules/regions.py: which regional desk an RFQ belongs to. A Python dict of regions is an
-- association list whose keys are distinct; a set of keys is the list of the regions it names.
pub mod Resolution
use rfq_workflow_agent.Base.{
  ℕ, ◌≡◌, Bool, true, false, not, ◌&&◌, ◌||◌, Option, none, some, List, [], ◌∷◌, ◌++◌, any, filter,
  if◌then◌else◌, leb, ltb, ◌==◌, suc, zero,
}
use rfq_workflow_agent.Base.Words.{is_word}
use rfq_workflow_agent.Base.Text.{
  Text, txt, text_eq, member, non_empty, lower, strip, contains, starts_with,
}

pub record Region : Type 0 where
  pub forward_to : Text
  pub cc : List Text
  pub template_branch : Text
  pub ports : List Text
  pub keywords : List Text
  pub mailbox_markers : List Text

abbrev pub Regions : Type 0
Regions = List (Text × Region)

pub data Rule : Type 0 where
  region_hint delivery_port keyword mailbox : Rule

pub record RegionMatch : Type 0 where
  pub key : Text
  pub region : Region
  pub rule : Rule

abbrev pub or_blank : Option Text → Text
or_blank none = []
or_blank (some t) = t

abbrev pub ends_word : Text → Bool
ends_word [] = true
ends_word (c ∷ s) = not (is_word c)

-- What follows a prefix that is there.
unfoldable pub after_prefix : Text → Text → Option Text
after_prefix [] s = some s
after_prefix (c ∷ p) [] = none
after_prefix (c ∷ p) (d ∷ s) = if c == d then after_prefix p s else none

-- Whether the word starts here and ends at the end of a word.
unfoldable pub word_here : Text → Text → Bool
unfolding after_prefix
word_here word s = elim (after_prefix word s) [ none ↦ false | some rest ↦ ends_word rest ]

-- `re.search(r"(?<!\w)word(?!\w)", text)`; `inside` tells whether a word character stands before.
unfoldable pub word_from : Bool → Text → Text → Bool
unfolding word_here
word_from inside word [] = not inside && word_here word []
word_from inside word (c ∷ s) =
    (not inside && word_here word (c ∷ s)) || word_from (is_word c) word s

-- `_whole_word`
unfoldable pub whole_word : Text → Text → Bool
unfolding word_from
whole_word word s = word_from false word s

abbrev is_token : ℕ → Bool
is_token c = (leb b'a' c && leb c b'z') || (leb b'0' c && leb c b'9')

-- `re.split(r"[^a-z0-9]+", text)`: the token that is open, or `none` within a run of separators.
unfoldable pub tokens_from : Option Text → Text → List Text
tokens_from none [] = [] ∷ []
tokens_from none (c ∷ s) =
    let token = tokens_from (some (c ∷ [])) s in
    let skip = tokens_from none s in if is_token c then token else skip
tokens_from (some run) [] = run ∷ []
tokens_from (some run) (c ∷ s) =
    let token = tokens_from (some (run ++ c ∷ [])) s in
    let split = tokens_from none s in if is_token c then token else run ∷ split

-- `_named`
unfoldable pub named : Regions → Option Text → Regions
unfolding lower strip
named regions hint =
    let key = lower (strip (or_blank hint)) in filter (λ (k, _). text_eq k key) regions

-- `_by_port`
unfoldable pub by_port : Regions → Option Text → Regions
unfolding lower contains
by_port regions port =
    let value = lower (or_blank port) in
    filter (λ (_, region). any (λ p. contains p value) region.ports) regions

-- `_by_keyword`
unfoldable pub by_keyword : Regions → Text → Regions
unfolding lower whole_word
by_keyword regions t =
    let lowered = lower t in
    filter (λ (_, region). any (λ w. whole_word w lowered) region.keywords) regions

-- `_by_mailbox`
unfoldable pub by_mailbox : Regions → Option Text → Regions
unfolding lower tokens_from
by_mailbox regions box =
    let tokens = tokens_from (some []) (lower (or_blank box)) in
    filter (λ (_, region). any (λ m. member m tokens) region.mailbox_markers) regions

-- The loop of `resolve_region` over the rules: none goes on, one answers, more than one ends it.
unfoldable pub first_single : List (Rule × Regions) → Option RegionMatch
first_single [] = none
first_single ((rule, []) ∷ rest) = first_single rest
first_single ((rule, (k, r) ∷ []) ∷ rest) = some (record { key = k; region = r; rule = rule })
first_single ((rule, _ ∷ _ ∷ _) ∷ rest) = none

-- `resolve_region`
unfoldable pub resolve_region :
    Regions → Option Text → Option Text → Text → Option Text → Option RegionMatch
unfolding first_single named by_port by_keyword by_mailbox
resolve_region regions hint port t box = first_single (
    (Rule.region_hint, named regions hint)
    ∷ (Rule.delivery_port, by_port regions port)
    ∷ (Rule.keyword, by_keyword regions t)
    ∷ (Rule.mailbox, by_mailbox regions box)
    ∷ [])
