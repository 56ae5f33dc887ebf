-- ===== src/Extraction/Header/Complete.antt =====
-- Nothing that the customer wrote in the header is lost.
use rfq_workflow_agent.Base.{◌≡◌, ◌≢◌, refl, Bool, true, ◌||◌, Option, some, arith}
use rfq_workflow_agent.Base.Text.{Text, strip}
use rfq_workflow_agent.Extraction.Dates.{Date}
use rfq_workflow_agent.Extraction.Imo.{normalize_imo}
use rfq_workflow_agent.Extraction.Header.{
  HeaderField, free_text_fields, date_fields, NormalizedHeader, empty_header, keep, stripped,
  keep_texts, keep_imo, keep_currency, keep_rfq_type, keep_dates, normalize_header,
}
use rfq_workflow_agent.Extraction.Header.Later.{
  in_text, in_dates, IsLater, IsLater-trans, keep-IsLater, keep-in_text, keep_imo-IsLater,
  keep_currency-IsLater, keep_rfq_type-IsLater, keep_dates-IsLater,
}
use rfq_workflow_agent.Extraction.Header.Fields.{
  IsWritten, keep_texts-All, keep_imo-in_text, keep_currency-in_text, keep_rfq_type-in_text,
  keep_dates-All,
}

or_right : (a b : Bool) → b ≡ true → (a || b) ≡ true
or_right a b h = ground (arith, h)

-- The field is filled in, or it is a date that is left blank with one of the three reasons.
abbrev pub is_settled : HeaderField → NormalizedHeader → Bool
is_settled name h = in_text name h || in_dates name h

module _ (today : Date) (written : HeaderField → Option Text) where
  abbrev texts : NormalizedHeader
  texts = keep_texts written free_text_fields empty_header

  abbrev with_imo : NormalizedHeader
  with_imo = keep_imo (written HeaderField.imo) (normalize_imo (written HeaderField.imo)) texts

  abbrev with_port : NormalizedHeader
  with_port =
      keep HeaderField.delivery_port (written HeaderField.delivery_port)
        (stripped (written HeaderField.delivery_port)) with_imo

  abbrev with_currency : NormalizedHeader
  with_currency = keep_currency (written HeaderField.currency) with_port

  abbrev with_type : NormalizedHeader
  with_type = keep_rfq_type (written HeaderField.rfq_type) with_currency

  type-IsLater : IsLater with_type (normalize_header today written)
  unfolding normalize_header
  type-IsLater = keep_dates-IsLater today written date_fields with_type

  currency-IsLater : IsLater with_currency (normalize_header today written)
  currency-IsLater =
      IsLater-trans with_currency with_type _
        (keep_rfq_type-IsLater (written HeaderField.rfq_type) with_currency) type-IsLater

  port-IsLater : IsLater with_port (normalize_header today written)
  port-IsLater =
      IsLater-trans with_port with_currency _
        (keep_currency-IsLater (written HeaderField.currency) with_port) currency-IsLater

  imo-IsLater : IsLater with_imo (normalize_header today written)
  imo-IsLater =
      IsLater-trans with_imo with_port _
        (keep-IsLater HeaderField.delivery_port (written HeaderField.delivery_port)
          (stripped (written HeaderField.delivery_port)) with_imo)
        port-IsLater

  texts-IsLater : IsLater texts (normalize_header today written)
  texts-IsLater =
      IsLater-trans texts with_imo _
        (keep_imo-IsLater (written HeaderField.imo) (normalize_imo (written HeaderField.imo)) texts)
        imo-IsLater

  later-is_settled :
      (h : NormalizedHeader) (name : HeaderField)
      → IsLater h (normalize_header today written)
      → in_text name h ≡ true
      → is_settled name (normalize_header today written) ≡ true
  later-is_settled h name l e = (let t = l.text_stays name e in ground (arith, t))

  text-is_settled :
      (name : HeaderField)
      → in_text name texts ≡ true
      → is_settled name (normalize_header today written) ≡ true
  text-is_settled name h = later-is_settled texts name texts-IsLater h

  date-is_settled :
      (name : HeaderField)
      → in_dates name (keep_dates today written date_fields with_type) ≡ true
      → is_settled name (normalize_header today written) ≡ true
  unfolding normalize_header
  date-is_settled name h =
      or_right (in_text name (keep_dates today written date_fields with_type)) _ h

  -- A field of the form that the customer wrote, with more than spaces, is filled in, or it is a date
  -- that is left blank with one of the three reasons: nothing is dropped for being unfamiliar.
  pub normalize_header-is_settled :
      (name : HeaderField)
      → name ≢ HeaderField.sender_code
      → IsWritten (written name)
      → is_settled name (normalize_header today written) ≡ true
  unfolding normalize_header
  normalize_header-is_settled HeaderField.vessel_name h w =
      text-is_settled HeaderField.vessel_name
        ((keep_texts-All written free_text_fields empty_header).0 w)
  normalize_header-is_settled HeaderField.rfq_reference h w =
      text-is_settled HeaderField.rfq_reference
        ((keep_texts-All written free_text_fields empty_header).1.0 w)
  normalize_header-is_settled HeaderField.customer_contact h w =
      text-is_settled HeaderField.customer_contact
        ((keep_texts-All written free_text_fields empty_header).1.1.0 w)
  normalize_header-is_settled HeaderField.customer_phone h w =
      text-is_settled HeaderField.customer_phone
        ((keep_texts-All written free_text_fields empty_header).1.1.1.0 w)
  normalize_header-is_settled HeaderField.customer_email h w =
      text-is_settled HeaderField.customer_email
        ((keep_texts-All written free_text_fields empty_header).1.1.1.1.0 w)
  normalize_header-is_settled HeaderField.person_designation h w =
      text-is_settled HeaderField.person_designation
        ((keep_texts-All written free_text_fields empty_header).1.1.1.1.1.0 w)
  normalize_header-is_settled HeaderField.delivery_address h w =
      text-is_settled HeaderField.delivery_address
        ((keep_texts-All written free_text_fields empty_header).1.1.1.1.1.1.0 w)
  normalize_header-is_settled HeaderField.eta h w =
      date-is_settled HeaderField.eta ((keep_dates-All today written date_fields with_type).0 w)
  normalize_header-is_settled HeaderField.etd h w =
      date-is_settled HeaderField.etd ((keep_dates-All today written date_fields with_type).1.0 w)
  normalize_header-is_settled HeaderField.quote_before h w =
      date-is_settled HeaderField.quote_before
        ((keep_dates-All today written date_fields with_type).1.1.0 w)
  normalize_header-is_settled HeaderField.requested_delivery h w =
      date-is_settled HeaderField.requested_delivery
        ((keep_dates-All today written date_fields with_type).1.1.1.0 w)
  normalize_header-is_settled HeaderField.imo h (t, e, full) =
      later-is_settled with_imo HeaderField.imo imo-IsLater
        (rw e (keep_imo-in_text t (normalize_imo (some t)) texts full))
  normalize_header-is_settled HeaderField.delivery_port h (t, e, full) =
      later-is_settled with_port HeaderField.delivery_port port-IsLater
        (rw e (keep-in_text HeaderField.delivery_port t (strip t) with_imo full))
  normalize_header-is_settled HeaderField.currency h (t, e, full) =
      later-is_settled with_currency HeaderField.currency currency-IsLater
        (rw e (keep_currency-in_text t with_port full))
  normalize_header-is_settled HeaderField.rfq_type h (t, e, full) =
      later-is_settled with_type HeaderField.rfq_type type-IsLater
        (rw e (keep_rfq_type-in_text t with_currency full))
  normalize_header-is_settled HeaderField.sender_code h w = absurd (h refl)
