-- ===== src/Preprocessing/Boilerplate.antt =====
-- src/domain/preprocessing/boilerplate.py: banners, disclaimers and signatures are taken off a message.
-- The regular expressions are written out as scans; the case of letters is that of ASCII.
pub mod Signature
use rfq_workflow_agent.Base.{
  ℕ, zero, suc, ◌+◌, ◌==◌, leb, ltb, Bool, true, false, not, ◌&&◌, ◌||◌, Option, none, some, List,
  [], ◌∷◌, ◌++◌, map, if◌then◌else◌, length, take, drop, any, filter, is_some,
}
use rfq_workflow_agent.Base.Text.{Text, txt, lstrip, strip, non_empty}
use rfq_workflow_agent.Base.Digits.{is_digit}
use rfq_workflow_agent.Base.Words.{is_word}
use rfq_workflow_agent.Preprocessing.Thread.{
  split_lines, join_lines, behind, then_line, at_least, only_spaces, at_boundary, or_as_it_was,
  caution,
}

-- `pattern.search(text)`: a scan at the start of some rest of the text.
unfoldable pub found_in : (Text → Option Text) → Text → Bool
found_in pattern [] = is_some (pattern [])
found_in pattern (c ∷ s) = is_some (pattern (c ∷ s)) || found_in pattern s

-- `_LINE_RULES`
unfoldable pub sensitivity : Text → Option Text
sensitivity line =
    then_line (behind (txt "sensitivity:") (lstrip line))
      (λ a. then_line (at_least 1 is_word (lstrip a)) only_spaces)

abbrev pub line_rules : List (Text × (Text → Option Text))
line_rules = (txt "caution_banner", caution) ∷ (txt "sensitivity_marker", sensitivity) ∷ []

-- `_TAIL_RULES`; 169 is the copyright sign.
unfoldable pub confidentiality : Text → Option Text
confidentiality t = then_line (behind (txt "confidentiality") t) (λ a.
    behind (txt "disclaimer") (lstrip (or_as_it_was (lstrip a) (behind (txt "&") (lstrip a)))))

abbrev pub first_behind : List Text → Text → Option Text
first_behind [] t = none
first_behind (p ∷ ps) t =
    let later = first_behind ps t in if is_some (behind p t) then behind p t else later

unfoldable pub associated_files : Text → Option Text
associated_files t =
    first_behind
      (map txt (
        "this message and any associated files" ∷ "this email and any associated files"
        ∷ "this e-mail and any associated files" ∷ []))
      t

unfoldable pub holiday_update : Text → Option Text
holiday_update line = then_line (behind (txt "holiday update") (lstrip line)) at_boundary

unfoldable pub one_digit : Text → Option Text
one_digit [] = none
one_digit (c ∷ s) = if is_digit c then some s else none

unfoldable pub marcura : Text → Option Text
marcura t = then_line (behind (169 ∷ []) t) (λ a. then_line (behind (txt "20") (lstrip a)) (λ b.
    then_line (one_digit b)
      (λ c. then_line (one_digit c) (λ d. behind (txt "marcura") (lstrip d)))))

abbrev pub tail_rules : List (Text × (Text → Bool))
tail_rules =
    (txt "confidentiality_notice", found_in confidentiality)
    ∷ (txt "generic_disclaimer", found_in associated_files)
    ∷ (txt "msc_legal_disclaimer", found_in (behind (txt "msc legal disclaimer")))
    ∷ (txt "personal_data_notice", found_in (behind (txt "processing of your personal data")))
    ∷ (txt "holiday_update", λ line. is_some (holiday_update line))
    ∷ (txt "marcura_footer", found_in marcura)
    ∷ []

-- `_SIGN_OFF`
abbrev pub sign_offs : List Text
sign_offs = map txt (
    "kind regards" ∷ "best regards" ∷ "warm regards" ∷ "regards" ∷ "thanks" ∷ "thank you"
    ∷ "with kind regards" ∷ "yours sincerely" ∷ "yours faithfully" ∷ [])

abbrev pub without_mark : Text → Text
without_mark [] = []
without_mark (c ∷ s) = if c == b',' || c == b'!' || c == b'.' then s else c ∷ s

unfoldable pub is_sign_off : Text → Bool
is_sign_off line =
    any
      (λ phrase.
        is_some (then_line (behind phrase (lstrip line)) (λ a. only_spaces (without_mark a))))
      sign_offs

-- `_VALUE_BEARING`
abbrev pub value_words : List Text
value_words = map txt (
    "qty" ∷ "quantity" ∷ "price" ∷ "amount" ∷ "uom" ∷ "imo" ∷ "eta" ∷ "etd" ∷ "vessel" ∷ "aed"
    ∷ "usd" ∷ "eur" ∷ "rfq" ∷ [])

abbrev pub word_starts : Text → Bool
word_starts t = any (λ w. is_some (then_line (behind w t) at_boundary)) value_words

unfoldable pub bears_value_after : (inside : Bool) → Text → Bool
bears_value_after inside [] = false
bears_value_after inside (c ∷ s) =
    (not inside && word_starts (c ∷ s)) || bears_value_after (is_word c) s

abbrev pub bears_value : Text → Bool
bears_value text = bears_value_after false text

-- `_drop_lines`
unfoldable pub drop_lines : (Text → Option Text) → Text → Text × Bool
drop_lines pattern text =
    let lines = split_lines text in
    let kept = filter (λ line. not (is_some (pattern line))) lines in
    (join_lines kept, not (length kept == length lines))

-- The number of lines in front of the first that a test finds.
unfoldable pub lines_before : (Text → Bool) → List Text → Option ℕ
lines_before p [] = none
lines_before p (line ∷ lines) =
    let later = lines_before p lines in
    if p line then some 0 else elim later [ none ↦ none | some n ↦ some (suc n) ]

-- `_drop_tail`
unfoldable pub cut_at : Text → List Text → Option ℕ → Text × Bool
cut_at text lines none = (text, false)
cut_at text lines (some n) = (join_lines (take n lines), true)

unfoldable pub drop_tail : (Text → Bool) → Text → Text × Bool
drop_tail pattern text = cut_at text (split_lines text) (lines_before pattern (split_lines text))

-- `_end_of_signature`, as the number of lines behind the sign-off that are kept.
unfoldable pub signature_lines : (left : ℕ) → List Text → ℕ
signature_lines zero lines = 0
signature_lines (suc left) [] = 0
signature_lines (suc left) (line ∷ lines) =
    let same = signature_lines (suc left) lines in
    let fewer = signature_lines left lines in if non_empty (strip line) then suc fewer else suc same

-- `_drop_signature`, with the number of lines in front of the sign-off.
unfoldable pub cut_signature : Text → List Text → Option ℕ → Text × Bool
cut_signature text lines none = (text, false)
cut_signature text lines (some n) =
    let keep_until = n + 1 + signature_lines 4 (drop (n + 1) lines) in
    let removed = join_lines (drop keep_until lines) in
    if not (non_empty (strip removed))
    then (text, false)
    else if bears_value removed
    then (text, false)
    else (join_lines (take keep_until lines), true)

unfoldable pub drop_signature : Text → Text × Bool
drop_signature text =
    cut_signature text (split_lines text) (lines_before is_sign_off (split_lines text))

-- `strip_boilerplate`: the text, and the names of the rules that fired.
abbrev pub noted : Text → Bool → List Text → List Text
noted name fired applied = if fired then applied ++ name ∷ [] else applied

unfoldable pub apply_lines :
    List (Text × (Text → Option Text)) → Text × List Text → Text × List Text
apply_lines [] done = done
apply_lines ((name, pattern) ∷ rules) (text, applied) =
    apply_lines rules ((drop_lines pattern text).0, noted name (drop_lines pattern text).1 applied)

unfoldable pub apply_tails : List (Text × (Text → Bool)) → Text × List Text → Text × List Text
apply_tails [] done = done
apply_tails ((name, pattern) ∷ rules) (text, applied) =
    apply_tails rules ((drop_tail pattern text).0, noted name (drop_tail pattern text).1 applied)

unfoldable pub strip_boilerplate : Text → Text × List Text
unfolding apply_lines apply_tails
strip_boilerplate text =
    let tailed = apply_tails tail_rules (apply_lines line_rules (text, [])) in
    let signed = drop_signature tailed.0 in
    (strip signed.0, noted (txt "signature") signed.1 tailed.1)
