-- ===== src/Domain/Regions/Resolution.antt =====
-- What `resolve_region` answers (src/domain/rules/regions.py).
use rfq_workflow_agent.Base.{◌≡◌, Option, some, [], ◌∷◌, arith, ◌↔◌}
use rfq_workflow_agent.Base.Text.{Text}
use rfq_workflow_agent.Domain.Regions.{
  Region, Regions, Rule, named, by_port, by_keyword, by_mailbox, resolve_region,
}

module _ (regions : Regions) (hint port : Option Text) (t : Text) (box : Option Text) where
  -- The regions that one rule names.
  abbrev pub names : Rule → Regions
  names Rule.region_hint = named regions hint
  names Rule.delivery_port = by_port regions port
  names Rule.keyword = by_keyword regions t
  names Rule.mailbox = by_mailbox regions box

  -- All rules that are stronger than this one name no region.
  abbrev pub SilentAbove : Rule → Type 0
  SilentAbove Rule.region_hint = Unit
  SilentAbove Rule.delivery_port = names Rule.region_hint ≡ []
  SilentAbove Rule.keyword = (names Rule.region_hint ≡ []) × (names Rule.delivery_port ≡ [])
  SilentAbove Rule.mailbox =
      (names Rule.region_hint ≡ []) × (names Rule.delivery_port ≡ []) × (names Rule.keyword ≡ [])

  -- A desk is chosen exactly by the strongest rule that names any region, when that rule names
  -- exactly this one.
  pub resolve_region_iff :
      (k : Text) (r : Region) (rule : Rule)
      → (resolve_region regions hint port t box
          ≡ some (record { key = k; region = r; rule = rule }))
        ↔ (SilentAbove rule × (names rule ≡ (k, r) ∷ []))
  unfolding resolve_region
  resolve_region_iff k r Rule.region_hint = (λ h. ground arith, λ h. ground arith)
  resolve_region_iff k r _ = (λ h. ground arith, λ h. ground arith)
