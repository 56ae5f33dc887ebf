-- ===== src/Domain/Registries.antt =====
-- src/domain/rules/registries.py: the editable registries, the sender's class and the Outlook labels.
-- The YAML reader is not modelled: `load_registries` starts from what it returned.
pub mod Labels
pub mod Senders
use rfq_workflow_agent.Base.{
  ◌≡◌, Bool, true, false, not, ◌&&◌, ◌||◌, Option, none, some, List, [], ◌∷◌, ◌++◌, any, filter,
  map, if◌then◌else◌, or_else, is_some, ℕ,
}
use rfq_workflow_agent.Base.Text.{Text, txt, text_eq, member, non_empty, lower, strip, contains}
use rfq_workflow_agent.Domain.Enums.{RecommendedAction, SenderClass}
use rfq_workflow_agent.Domain.Models.{ClassificationResult, after_last_at}
use rfq_workflow_agent.Domain.Regions.{Region}

-- `_lowercase`: trimmed and lowered, the blank ones left out.
unfoldable pub lowercase : List Text → List Text
unfolding lower strip
lowercase [] = []
lowercase (v ∷ vs) =
    let rest = lowercase vs in if non_empty (strip v) then lower (strip v) ∷ rest else rest

pub record Portal : Type 0 where
  pub domains : List Text
  pub body_markers : List Text
  pub subject_patterns : List (Text × List Text)
  pub is_integrated : Bool

pub record FastPathConfidence (F : Type 0) : Type 0 where
  pub internal_only : F
  pub empty_body : F

pub record FastPathSettings (F : Type 0) : Type 0 where
  pub min_body_chars : ℕ
  pub confidence : FastPathConfidence F

-- `by_action` is a dict from actions to labels: no entry is `none`.
pub record OutlookCategories : Type 0 where
  pub by_action : RecommendedAction → Option Text
  pub needs_review : Option Text
  pub not_sent : Option Text
  pub error : Option Text

-- A label that is set and not empty.
unfoldable pub given : Option Text → Option Text
given none = none
given (some t) = if non_empty t then some t else none

abbrev pub to_list : Option Text → List Text
to_list none = []
to_list (some t) = t ∷ []

-- `OutlookCategories.for_result`
unfoldable pub for_result : {F : Type 0} → OutlookCategories → ClassificationResult F → List Text
unfolding given
for_result c r =
    let routed = to_list (given (c.by_action r.recommended_action)) in
    if r.needs_human_review
    then elim (given c.needs_review) [ none ↦ routed | some label ↦ label ∷ [] ]
    else routed

-- `[*labels, label]`, unless the label is missing or already there.
unfoldable pub mark : Option Text → List Text → List Text
mark none labels = labels
mark (some label) labels = if member label labels then labels else labels ++ label ∷ []

-- `OutlookCategories.plus_not_sent`
unfoldable pub plus_not_sent : OutlookCategories → List Text → List Text
unfolding given mark
plus_not_sent c labels = mark (given c.not_sent) labels

-- `OutlookCategories.for_failure`
unfoldable pub for_failure : OutlookCategories → List Text
unfolding given
for_failure c = to_list (given c.error)

-- The labels that are set, in order.
unfoldable pub labels_of : List (Option Text) → List Text
unfolding given
labels_of [] = []
labels_of (o ∷ os) = to_list (given o) ++ labels_of os

-- The values of the table and the three labels beside it.
abbrev pub label_slots : OutlookCategories → List (Option Text)
label_slots c =
    c.by_action RecommendedAction.forward_to_dst
    ∷ c.by_action RecommendedAction.route_to_cs
    ∷ c.by_action RecommendedAction.route_to_sourcing
    ∷ c.by_action RecommendedAction.route_to_order_team
    ∷ c.by_action RecommendedAction.human_review
    ∷ c.by_action RecommendedAction.ignore
    ∷ c.needs_review
    ∷ c.not_sent
    ∷ c.error
    ∷ []

-- `OutlookCategories.all_names`, a set, as a list that may name a label twice.
unfoldable pub all_names : OutlookCategories → List Text
unfolding labels_of
all_names c = labels_of (label_slots c)

pub record Registries (F : Type 0) : Type 0 where
  pub internal_domains : List Text
  pub internal_system_senders : List Text
  pub portals : List (Text × Portal)
  pub known_customer_domains : List Text
  pub known_supplier_domains : List Text
  pub template_markers : List (Text × List Text)
  pub outlook_categories : OutlookCategories
  pub regions : List (Text × Region)
  pub fast_path : FastPathSettings F

-- `bool(domain) and domain.lower() in names`
unfoldable pub listed : Option Text → List Text → Bool
unfolding lower
listed none names = false
listed (some d) names = non_empty d && member (lower d) names

module _ {F : Type 0} (r : Registries F) where
  -- `Registries.is_internal_domain`
  unfoldable pub is_internal_domain : Option Text → Bool
  unfolding listed
  is_internal_domain d = listed d r.internal_domains

  -- `Registries.is_system_sender`
  unfoldable pub is_system_sender : Option Text → Bool
  unfolding listed
  is_system_sender a = listed a r.internal_system_senders

-- The loop of `find_portal_by_domain`: the first portal that lists the domain.
unfoldable pub portal_of : Text → List (Text × Portal) → Option Text
portal_of d [] = none
portal_of d ((name, portal) ∷ rest) =
    if member d portal.domains then some name else portal_of d rest

-- The loop of `find_portal_in_text`.
unfoldable pub portal_in : Text → List (Text × Portal) → Option Text
unfolding contains lower
portal_in t [] = none
portal_in t ((name, portal) ∷ rest) =
    if any (λ m. contains (lower m) t) portal.body_markers then some name else portal_in t rest

unfoldable pub groups_in : Text → List (Text × List Text) → List Text
unfolding contains lower
groups_in t [] = []
groups_in t ((group, markers) ∷ rest) =
    let more = groups_in t rest in
    if any (λ m. contains (lower m) t) markers then group ∷ more else more

module _ {F : Type 0} (r : Registries F) where
  -- `Registries.find_portal_by_domain`
  unfoldable pub find_portal_by_domain : Option Text → Option Text
  unfolding portal_of lower
  find_portal_by_domain none = none
  find_portal_by_domain (some d) = if non_empty d then portal_of (lower d) r.portals else none

  -- `Registries.find_portal_in_text`
  unfoldable pub find_portal_in_text : Text → Option Text
  unfolding portal_in lower
  find_portal_in_text t = portal_in (lower t) r.portals

  -- `Registries.matching_markers`
  unfoldable pub matching_markers : Text → List Text
  unfolding groups_in lower
  matching_markers t = groups_in (lower t) r.template_markers

  -- `Registries.classify_sender`
  unfoldable pub classify_sender : Option Text → Option Text → SenderClass
  classify_sender address none = SenderClass.unknown
  classify_sender address (some d) =
      if not (non_empty d)
      then SenderClass.unknown
      else if is_system_sender r address
      then SenderClass.internal_system
      else if is_internal_domain r (some d)
      then SenderClass.internal_own
      else if is_some (given (find_portal_by_domain (some d)))
      then SenderClass.portal
      else if member (lower d) r.known_customer_domains
      then SenderClass.known_customer
      else if member (lower d) r.known_supplier_domains
      then SenderClass.known_supplier
      else SenderClass.external_unknown
