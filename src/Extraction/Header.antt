-- ===== src/Extraction/Header.antt =====
-- `normalize_header` of src/services/extraction/normalize.py. A dictionary is the list of its entries,
-- the latest last; no key is set twice. What the customer wrote is a function from the fields.
pub mod Later
pub mod Fields
pub mod Complete
mod Examples
use rfq_workflow_agent.Base.{
  ℕ, zero, suc, ◌+◌, ◌-◌, ◌==◌, leb, Bool, true, false, not, ◌&&◌, ◌||◌, Option, none, some, List,
  [], ◌∷◌, ◌++◌, map, if◌then◌else◌, any, length, drop,
}
use rfq_workflow_agent.Base.Text.{
  Text, txt, text_eq, member, strip, starts_with, contains, non_empty,
}
use rfq_workflow_agent.Base.Words.{is_word}
use rfq_workflow_agent.Extraction.Dates.{Date, DateReading, parse_date}
use rfq_workflow_agent.Extraction.Imo.{normalize_imo}

pub data HeaderField : Type 0 where
  vessel_name imo rfq_reference customer_contact customer_phone customer_email : HeaderField
  person_designation delivery_port eta etd quote_before requested_delivery : HeaderField
  delivery_address currency rfq_type sender_code : HeaderField

abbrev pub place : HeaderField → ℕ
place HeaderField.vessel_name = 0
place HeaderField.imo = 1
place HeaderField.rfq_reference = 2
place HeaderField.customer_contact = 3
place HeaderField.customer_phone = 4
place HeaderField.customer_email = 5
place HeaderField.person_designation = 6
place HeaderField.delivery_port = 7
place HeaderField.eta = 8
place HeaderField.etd = 9
place HeaderField.quote_before = 10
place HeaderField.requested_delivery = 11
place HeaderField.delivery_address = 12
place HeaderField.currency = 13
place HeaderField.rfq_type = 14
place HeaderField.sender_code = 15

abbrev pub same_field : HeaderField → HeaderField → Bool
same_field a b = place a == place b

abbrev pub free_text_fields : List HeaderField
free_text_fields =
    HeaderField.vessel_name ∷ HeaderField.rfq_reference ∷ HeaderField.customer_contact
    ∷ HeaderField.customer_phone ∷ HeaderField.customer_email ∷ HeaderField.person_designation
    ∷ HeaderField.delivery_address ∷ []

abbrev pub date_fields : List HeaderField
date_fields =
    HeaderField.eta ∷ HeaderField.etd ∷ HeaderField.quote_before ∷ HeaderField.requested_delivery
    ∷ []

abbrev pub rfq_types : List Text
rfq_types = map txt (
    "BOND" ∷ "CABIN" ∷ "DECK" ∷ "ENGINE" ∷ "PROVISION" ∷ "ELECTRICAL" ∷ "MEDICAL" ∷ "SAFETY"
    ∷ "STATIONARY" ∷ "PRIVATE" ∷ "OTHERS" ∷ "TENDER" ∷ [])

abbrev pub currency_codes : List Text
currency_codes = map txt ("AED" ∷ "EGP" ∷ "EUR" ∷ "JPY" ∷ "KRW" ∷ "OMR" ∷ "SGD" ∷ "USD" ∷ [])

-- `CURRENCY_SYMBOLS`; 36 is the dollar and 8364 the euro.
abbrev pub currency_symbols : List (Text × Text)
currency_symbols =
    (36 ∷ [], txt "USD")
    ∷ (8364 ∷ [], txt "EUR")
    ∷ (b'U' ∷ b'S' ∷ 36 ∷ [], txt "USD")
    ∷ (b'U' ∷ b'S' ∷ b'D' ∷ 36 ∷ [], txt "USD")
    ∷ (txt "AED", txt "AED")
    ∷ (txt "DHS", txt "AED")
    ∷ []

-- `text.upper()`
abbrev pub upper_code : ℕ → ℕ
upper_code c = if leb b'a' c && leb c b'z' then c - 32 else c

unfoldable pub upper : Text → Text
upper s = map upper_code s

-- The first element that passes a test: `next(x for x in xs if p(x))`.
unfoldable pub first_with {ℓ} : {A : Type ℓ} → (A → Bool) → List A → Option A
first_with p [] = none
first_with p (x ∷ xs) = let later = first_with p xs in if p x then some x else later

-- `re.match(rf"^{code}\b", cleaned)`: the codes end with a letter.
abbrev pub ends_word : Text → Bool
ends_word [] = true
ends_word (c ∷ s) = not (is_word c)

unfoldable pub names_code : Text → Text → Bool
names_code cleaned code = starts_with code cleaned && ends_word (drop (length code) cleaned)

unfoldable pub symbol_of : Text → List (Text × Text) → Option Text
symbol_of cleaned [] = none
symbol_of cleaned ((symbol, code) ∷ rest) =
    let later = symbol_of cleaned rest in if text_eq symbol cleaned then some code else later

unfoldable pub symbol_in : (accepted : List Text) → Text → List (Text × Text) → Option Text
symbol_in accepted cleaned [] = none
symbol_in accepted cleaned ((symbol, code) ∷ rest) =
    let later = symbol_in accepted cleaned rest in
    if starts_with symbol cleaned && member code accepted then some code else later

abbrev pub in_list : List Text → Option Text → Option Text
in_list accepted none = none
in_list accepted (some code) = if member code accepted then some code else none

-- The first of several answers that is there.
abbrev pub first_of : List (Option Text) → Option Text
first_of [] = none
first_of (none ∷ rest) = first_of rest
first_of (some t ∷ rest) = some t

-- `normalize_currency`, of a value that is written.
unfoldable pub normalize_currency : Text → List Text → Option Text
normalize_currency value accepted =
    let cleaned = upper (strip value) in
    first_of (
      in_list accepted (some cleaned)
      ∷ in_list accepted (symbol_of cleaned currency_symbols)
      ∷ first_with (names_code cleaned) accepted
      ∷ symbol_in accepted cleaned currency_symbols
      ∷ [])

-- `normalize_rfq_type`: the type, and whether it fell back.
abbrev pub others : Text
others = txt "OTHERS"

abbrev pub type_or : List Text → Option Text → Option Text × Bool
type_or accepted (some code) = (some code, false)
type_or accepted none = if member others accepted then (some others, true) else (none, false)

unfoldable pub normalize_rfq_type : Option Text → List Text → Option Text × Bool
normalize_rfq_type none accepted = (none, false)
normalize_rfq_type (some value) accepted =
    let cleaned = upper (strip value) in
    if not (non_empty value)
    then (none, false)
    else if member cleaned accepted
    then (some cleaned, false)
    else type_or accepted (first_with (λ code. contains code cleaned) accepted)

pub record NormalizedHeader : Type 0 where
  pub text : List (HeaderField × Text)
  pub dates : List (HeaderField × Date)
  pub warnings : List Text
  pub dropped : List (HeaderField × Text)
  pub checked : List (HeaderField × Text)

abbrev pub empty_header : NormalizedHeader
empty_header = record { text = []; dates = []; warnings = []; dropped = []; checked = [] }

-- `warn`
unfoldable pub warn_once : Text → NormalizedHeader → NormalizedHeader
warn_once reason h =
    if non_empty reason && not (member reason h.warnings)
    then record h { warnings = h.warnings ++ reason ∷ [] }
    else h

unfoldable pub drop_field : HeaderField → Text → NormalizedHeader → NormalizedHeader
unfolding warn_once
drop_field name reason h =
    warn_once reason (record h { dropped = h.dropped ++ (name, reason) ∷ [] })

-- `flag`
unfoldable pub flag : HeaderField → Text → NormalizedHeader → NormalizedHeader
unfolding warn_once
flag name reason h =
    if non_empty reason
    then warn_once reason (record h { checked = h.checked ++ (name, reason) ∷ [] })
    else h

-- `keep`, with what the customer wrote in the field; the reason is empty in every call.
unfoldable pub keep :
    HeaderField → (written value : Option Text) → NormalizedHeader → NormalizedHeader
unfolding drop_field
keep name none none h = h
keep name (some w) none h = drop_field name [] h
keep name none (some []) h = h
keep name (some w) (some []) h = drop_field name [] h
keep name written (some (c ∷ s)) h = record h { text = h.text ++ (name, c ∷ s) ∷ [] }

-- `value or ""`, stripped; an empty text is no value.
abbrev pub stripped : Option Text → Option Text
stripped none = none
stripped (some t) = some (strip t)

unfoldable pub keep_texts :
    (written : HeaderField → Option Text) → List HeaderField → NormalizedHeader → NormalizedHeader
unfolding keep
keep_texts written [] h = h
keep_texts written (name ∷ names) h =
    keep_texts written names (keep name (written name) (stripped (written name)) h)

abbrev pub imo_invalid : Text
imo_invalid = txt "imo_check_digit_failed"

abbrev pub rfq_type_fell_back : Text
rfq_type_fell_back = txt "rfq_type_fell_back_to_others"

-- The IMO: what was written is kept also where its check digit fails, with a flag.
unfoldable pub keep_imo : (written number : Option Text) → NormalizedHeader → NormalizedHeader
unfolding keep flag
keep_imo written (some (c ∷ s)) h = keep HeaderField.imo written (some (c ∷ s)) h
keep_imo none number h = h
keep_imo (some []) number h = h
keep_imo (some (c ∷ s)) number h =
    flag HeaderField.imo imo_invalid (keep HeaderField.imo (some (c ∷ s)) (some (strip (c ∷ s))) h)

abbrev pub or_text : Option Text → Text → Text
or_text none d = d
or_text (some []) d = d
or_text (some (c ∷ s)) d = c ∷ s

unfoldable pub keep_currency : (written : Option Text) → NormalizedHeader → NormalizedHeader
unfolding keep
keep_currency none h = h
keep_currency (some []) h = h
keep_currency (some (c ∷ s)) h =
    keep HeaderField.currency (some (c ∷ s))
      (some (or_text (normalize_currency (c ∷ s) currency_codes) (upper (strip (c ∷ s))))) h

unfoldable pub keep_rfq_type : (written : Option Text) → NormalizedHeader → NormalizedHeader
unfolding keep warn_once
keep_rfq_type written h =
    let kept = keep HeaderField.rfq_type written (normalize_rfq_type written rfq_types).0 h in
    if (normalize_rfq_type written rfq_types).1 then warn_once rfq_type_fell_back kept else kept

unfoldable pub keep_date : HeaderField → DateReading → NormalizedHeader → NormalizedHeader
unfolding drop_field
keep_date name (none, problem) h = drop_field name problem h
keep_date name (some d, problem) h = record h { dates = h.dates ++ (name, d) ∷ [] }

unfoldable pub keep_written : Date → HeaderField → Option Text → NormalizedHeader → NormalizedHeader
unfolding keep_date
keep_written today name none h = h
keep_written today name (some raw) h = keep_date name (parse_date today raw) h

unfoldable pub keep_dates :
    Date
    → (written : HeaderField → Option Text) → List HeaderField
    → NormalizedHeader
    → NormalizedHeader
unfolding keep_written
keep_dates today written [] h = h
keep_dates today written (name ∷ names) h =
    keep_dates today written names (keep_written today name (written name) h)

-- `normalize_header`
unfoldable pub normalize_header : Date → (written : HeaderField → Option Text) → NormalizedHeader
unfolding keep_texts keep_imo keep keep_currency keep_rfq_type keep_dates
normalize_header today written = keep_dates today written date_fields (
    keep_rfq_type (written HeaderField.rfq_type) (
      keep_currency (written HeaderField.currency) (
        keep HeaderField.delivery_port (written HeaderField.delivery_port)
          (stripped (written HeaderField.delivery_port))
          (keep_imo (written HeaderField.imo) (normalize_imo (written HeaderField.imo))
            (keep_texts written free_text_fields empty_header)))))
