-- ===== src/Domain/Examples.antt =====
-- The rules' theorems at a small registry.
use rfq_workflow_agent.Base.{ℕ, true, false, ◌≡◌, ◌≢◌, ◌↔◌, ◌⊎◌, refl, none, some, [], ◌∷◌}
use rfq_workflow_agent.Base.Words.{in_ranges, is_letter_beyond}
use rfq_workflow_agent.Base.Text.{Text, txt}
use rfq_workflow_agent.Domain.Enums.{SenderClass}
use rfq_workflow_agent.Domain.Models.{EmailAddress, NormalizedEmail, SplitThread}
use rfq_workflow_agent.Domain.Regions.{Region, Regions, Rule, resolve_region}
use rfq_workflow_agent.Domain.Regions.Resolution.{names, SilentAbove, resolve_region_iff}
use rfq_workflow_agent.Domain.Registries.{
  Registries, classify_sender, is_internal_domain, is_system_sender,
}
use rfq_workflow_agent.Domain.FastPath.{match_fast_path}
use rfq_workflow_agent.Domain.FastPath.Rules.{IsInternal, IsEmpty, match_fast_path_iff}

abbrev desk : Text → Text → Region
desk port word = record {
  forward_to = port;
  cc = [];
  template_branch = [];
  ports = port ∷ [];
  keywords = word ∷ [];
  mailbox_markers = [];
}

abbrev regions : Regions
regions =
    (txt "uae", desk (txt "dubai") (txt "u.a.e.")) ∷ (txt "sg", desk (txt "jurong") (txt "sg")) ∷ []

-- "sg" does not fire inside "message", and the port settles it.
by_port_rule :
    resolve_region regions none (some (txt "Port of DUBAI")) (txt "see message") none
    ≡ some (record {
      key = txt "uae";
      region = desk (txt "dubai") (txt "u.a.e.");
      rule = Rule.delivery_port;
    })
unfolding resolve_region
by_port_rule = refl

by_word :
    resolve_region regions none none (txt "deliver to SG, please") none
    ≡ some (record { key = txt "sg"; region = desk (txt "jurong") (txt "sg"); rule = Rule.keyword })
unfolding resolve_region
by_word = refl

resolve_region_iff_example :
    (resolve_region regions none (some (txt "Dubai")) [] none
      ≡ some (record {
        key = txt "uae";
        region = desk (txt "dubai") (txt "u.a.e.");
        rule = Rule.delivery_port;
      }))
    ↔ (SilentAbove regions none (some (txt "Dubai")) [] none Rule.delivery_port
        × (names regions none (some (txt "Dubai")) [] none Rule.delivery_port
            ≡ (txt "uae", desk (txt "dubai") (txt "u.a.e.")) ∷ []))
resolve_region_iff_example =
    resolve_region_iff regions none (some (txt "Dubai")) [] none (txt "uae")
      (desk (txt "dubai") (txt "u.a.e.")) Rule.delivery_port

abbrev pub registries : Registries ℕ
registries = record {
  internal_domains = txt "us.com" ∷ [];
  internal_system_senders = txt "bot@us.com" ∷ [];
  portals = [];
  known_customer_domains = txt "us.com" ∷ [];
  known_supplier_domains = [];
  template_markers = [];
  outlook_categories = record {
    by_action = λ a. some (txt "RFQ");
    needs_review = none;
    not_sent = some (txt "Not sent");
    error = none;
  };
  regions = regions;
  fast_path = record {
    min_body_chars = 5;
    confidence = record { internal_only = 99; empty_body = 90 };
  };
}

own_before_customer :
    classify_sender registries (some (txt "ann@us.com")) (some (txt "US.com"))
    ≡ SenderClass.internal_own
unfolding classify_sender is_system_sender is_internal_domain
own_before_customer = refl

abbrev ann : EmailAddress
ann = record { name = none; address = some (txt "ann@us.com") }

abbrev pub memo : NormalizedEmail
memo = record {
  message_id = none;
  received_at = none;
  mailbox = none;
  region_hint = none;
  sender = some ann;
  to = ann ∷ [];
  cc = [];
  subject = none;
  body_text = txt "lunch?";
  attachments = [];
  parse_warnings = [];
}

abbrev short : SplitThread
short = record { latest_message = txt " ok "; quoted_messages = []; warnings = [] }

match_fast_path_iff_example :
    (match_fast_path registries memo short ≢ none)
    ↔ (IsInternal registries memo ⊎ IsEmpty registries memo short)
match_fast_path_iff_example = match_fast_path_iff registries memo short

-- The euro sign, a smiling face and a wide comma are not of a word; é and a wide A are.
words :
    (is_letter_beyond 8364 ≡ false)
    × (is_letter_beyond 128512 ≡ false)
    × (is_letter_beyond 65292 ≡ false)
    × (is_letter_beyond 233 ≡ true)
    × (is_letter_beyond 65313 ≡ true)
unfolding is_letter_beyond in_ranges
words = (refl, refl, refl, refl, refl)
