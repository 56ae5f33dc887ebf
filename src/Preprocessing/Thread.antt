-- ===== src/Preprocessing/Thread.antt =====
-- src/domain/preprocessing/thread.py: the newest message of an email and the history below it. The
-- regular expressions are written out as scans of one line; the case of letters is that of ASCII.
pub mod Parts
use rfq_workflow_agent.Base.{
  ℕ, zero, suc, ◌+◌, ◌-◌, ◌==◌, leb, ltb, Bool, true, false, not, ◌&&◌, ◌||◌, Option, none, some,
  List, [], ◌∷◌, ◌++◌, map, if◌then◌else◌, length, take, drop, any, all, is_some,
}
use rfq_workflow_agent.Base.Text.{
  Text, txt, lower, lower_code, lstrip, strip, is_space, starts_with, non_empty,
}
use rfq_workflow_agent.Base.Digits.{is_digit}
use rfq_workflow_agent.Domain.Models.{QuotedMessage, SplitThread}
use rfq_workflow_agent.Base.Words.{is_word}

abbrev pub header_lookahead : ℕ
header_lookahead = 6

abbrev pub cluster_gap : ℕ
cluster_gap = 4

abbrev pub suspicious_split : Text
suspicious_split = txt "suspicious_split_empty_latest"

-- `body.split("\n")` and `"\n".join(lines)`
unfoldable pub cons_char : ℕ → List Text → List Text
cons_char c [] = (c ∷ []) ∷ []
cons_char c (line ∷ lines) = (c ∷ line) ∷ lines

unfoldable pub split_lines : Text → List Text
split_lines [] = [] ∷ []
split_lines (c ∷ s) = let rest = split_lines s in if c == 10 then [] ∷ rest else cons_char c rest

unfoldable pub join_lines : List Text → Text
join_lines [] = []
join_lines (line ∷ []) = line
join_lines (line ∷ next ∷ lines) = line ++ 10 ∷ join_lines (next ∷ lines)

-- What follows a literal in lower case at the start of a line, in any case.
unfoldable pub behind : Text → Text → Option Text
behind [] s = some s
behind (p ∷ ps) [] = none
behind (p ∷ ps) (c ∷ s) = let rest = behind ps s in if lower_code c == p then rest else none

abbrev pub then_line {ℓ} : {A : Type ℓ} → Option Text → (Text → Option A) → Option A
then_line none f = none
then_line (some t) f = f t

-- The number of characters of a class at the start of a line, and what follows them.
unfoldable pub run_length : (ℕ → Bool) → Text → ℕ
run_length p [] = 0
run_length p (c ∷ s) = let rest = run_length p s in if p c then suc rest else 0

unfoldable pub at_least : ℕ → (ℕ → Bool) → Text → Option Text
at_least n p s = if leb n (run_length p s) then some (drop (run_length p s) s) else none

abbrev pub only_spaces : Text → Option Text
only_spaces s = if all is_space s then some [] else none

abbrev pub is_rule : ℕ → Bool
is_rule c = c == b'_' || c == b'-'

-- `_DIVIDER`
unfoldable pub divider : Text → Option Text
divider line = then_line (at_least 2 is_rule line) (λ a.
    then_line (behind (txt "original message") (lstrip a))
      (λ b. then_line (at_least 2 is_rule (lstrip b)) only_spaces))

abbrev pub or_as_it_was : Text → Option Text → Text
or_as_it_was s none = s
or_as_it_was s (some t) = t

-- `_MESSAGE_ID`
unfoldable pub message_id_line : Text → Option Text
message_id_line line = then_line (behind (txt "message") (lstrip line)) (λ a.
    then_line (behind (txt ":") (or_as_it_was a (behind (txt " number") a)))
      (λ b. then_line (at_least 4 is_digit (lstrip b)) only_spaces))

-- `_CAUTION`
abbrev pub at_boundary : Text → Option Text
at_boundary [] = some []
at_boundary (c ∷ s) = if is_word c then none else some (c ∷ s)

unfoldable pub caution : Text → Option Text
caution line =
    then_line (behind (txt "caution:") (lstrip line))
      (λ a. then_line (behind (txt "external") (lstrip a)) at_boundary)

-- `_ON_WROTE`: `n` characters are passed since `On `, the last of them `prev`.
abbrev pub is_wrote : Text → Bool
is_wrote s = starts_with (txt "wrote:") s && all is_space (drop 6 s)

unfoldable pub wrote_from : ℕ → ℕ → Text → Bool
wrote_from n prev [] = false
wrote_from n prev (c ∷ s) =
    (leb 5 n && leb n 120 && not (is_word prev) && is_wrote (c ∷ s)) || wrote_from (n + 1) c s

unfoldable pub on_wrote : Text → Bool
on_wrote line = starts_with (txt "On ") line && wrote_from 0 b' ' (drop 3 line)

-- `(\S.*)$` and `(.*)$` behind spaces.
abbrev pub some_text : Text → Option Text
some_text [] = none
some_text (c ∷ s) = some (c ∷ s)

-- `_FROM`, `_DATE` and `_SUBJECT`
unfoldable pub from_line : Text → Option Text
from_line line = then_line (behind (txt "from:") (lstrip line)) (λ a. some_text (lstrip a))

abbrev pub first_there : Option Text → Option Text → Option Text
first_there none b = b
first_there (some a) b = some a

unfoldable pub date_line : Text → Option Text
date_line line =
    then_line
      (first_there (behind (txt "sent:") (lstrip line)) (behind (txt "date:") (lstrip line)))
      (λ a. some_text (lstrip a))

unfoldable pub subject_line : Text → Option Text
subject_line line = then_line (behind (txt "subject:") (lstrip line)) (λ a. some (lstrip a))

-- `_starts_header_block` and `_banner_precedes_header`, of a line and those after it.
unfoldable pub starts_header_block : Text → List Text → Bool
starts_header_block line rest =
    let window = take header_lookahead rest in
    is_some (from_line line)
    && (any (λ l. is_some (date_line l)) window && any (λ l. is_some (subject_line l)) window)

unfoldable pub banner_precedes_header : List Text → Bool
banner_precedes_header rest =
    any (λ l. is_some (message_id_line l) || is_some (from_line l)) (take 3 rest)

-- `_is_boundary`
unfoldable pub is_boundary : Text → List Text → Bool
is_boundary line rest =
    if is_some (divider line) || is_some (message_id_line line) || on_wrote line
    then true
    else if is_some (caution line)
    then banner_precedes_header rest
    else starts_header_block line rest

-- `_boundaries`: the hits, and the first of each cluster.
unfoldable pub hits_from : ℕ → List Text → List ℕ
hits_from i [] = []
hits_from i (line ∷ rest) =
    let later = hits_from (i + 1) rest in if is_boundary line rest then i ∷ later else later

unfoldable pub cluster_from : ℕ → List ℕ → List ℕ
cluster_from last [] = []
cluster_from last (i ∷ hits) =
    let same = cluster_from last hits in
    let next = cluster_from i hits in if ltb cluster_gap (i - last) then i ∷ next else same

unfoldable pub cluster : List ℕ → List ℕ
unfolding cluster_from
cluster [] = []
cluster (i ∷ hits) = i ∷ cluster_from i hits

unfoldable pub boundaries : List Text → List ℕ
unfolding cluster
boundaries lines = cluster (hits_from 0 lines)

-- `_first_match`
unfoldable pub first_match : (Text → Option Text) → List Text → Option Text
first_match pattern [] = none
first_match pattern (line ∷ lines) =
    let later = first_match pattern lines in
    elim (pattern line) [ none ↦ later | some value ↦ some_text (strip value) ]

-- `_parse_quoted`
unfoldable pub parse_quoted : List Text → QuotedMessage
parse_quoted lines = record {
  raw = strip (join_lines lines);
  from_address = first_match from_line (take header_lookahead lines);
  sent_at = first_match date_line (take header_lookahead lines);
  subject = first_match subject_line (take header_lookahead lines);
}

-- The parts of the lines between one start and the next, or the end.
abbrev pub end_of : ℕ → List ℕ → ℕ
end_of n [] = n
end_of n (s ∷ starts) = s

unfoldable pub quoted_parts : List Text → List ℕ → List (List Text)
quoted_parts lines [] = []
quoted_parts lines (s ∷ starts) =
    take (end_of (length lines) starts - s) (drop s lines) ∷ quoted_parts lines starts

-- `split_thread`, with the boundaries.
unfoldable pub split_at : Text → ℕ → List Text → List ℕ → SplitThread
split_at body min_latest_chars lines [] = record {
  latest_message = strip body;
  quoted_messages = [];
  warnings = [];
}
split_at body min_latest_chars lines (s ∷ starts) =
    let latest = strip (join_lines (take s lines)) in
    record {
      latest_message = latest;
      quoted_messages = map parse_quoted (quoted_parts lines (s ∷ starts));
      warnings = if ltb (length latest) min_latest_chars then suspicious_split ∷ [] else [];
    }

-- `split_thread`
unfoldable pub split_thread : (body : Text) (min_latest_chars : ℕ) → SplitThread
unfolding split_at
split_thread body min_latest_chars =
    split_at body min_latest_chars (split_lines body) (boundaries (split_lines body))
