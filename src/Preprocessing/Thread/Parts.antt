-- ===== src/Preprocessing/Thread/Parts.antt =====
-- No line of an email is lost when it is cut into messages.
use rfq_workflow_agent.Base.{
  ℕ, zero, suc, ◌+◌, ◌-◌, ◌==◌, ◌≤◌, ◌<◌, ltb, ◌≡◌, refl, sym, ap, ◌∙◌, List, [], ◌∷◌, ◌++◌, map,
  length, take, drop, arith, Bool-cases, inl, inr,
}
use mathlib.Core.List.{append-nil}
use rfq_workflow_agent.Base.Text.{Text, strip}
use rfq_workflow_agent.Domain.Models.{QuotedMessage, SplitThread}
use rfq_workflow_agent.Preprocessing.Thread.{
  cluster_gap, cons_char, split_lines, join_lines, is_boundary, hits_from, cluster_from, cluster,
  boundaries, parse_quoted, end_of, quoted_parts, split_at, split_thread,
}

join_lines-cons_char :
    (c : ℕ) (lines : List Text) → join_lines (cons_char c lines) ≡ c ∷ join_lines lines
unfolding join_lines cons_char
join_lines-cons_char c [] = refl
join_lines-cons_char c (l ∷ []) = refl
join_lines-cons_char c (l ∷ n ∷ ls) = refl

abbrev IsLines : List Text → Type 0
IsLines lines = (line : Text) × (rest : List Text) × (lines ≡ line ∷ rest)

split_lines-IsLines : (t : Text) → IsLines (split_lines t)
unfolding split_lines cons_char
split_lines-IsLines [] = ([], [], refl)
split_lines-IsLines (c ∷ s) = elim (Bool-cases (c == 10)) [
  | inl feed ↦ rw feed (([], split_lines s, refl))
  | inr other ↦ (let (l, r, e) = split_lines-IsLines s in rw (other, e) ((c ∷ l, r, refl)))
]

join_lines-feed :
    (lines : List Text) → IsLines lines → join_lines ([] ∷ lines) ≡ 10 ∷ join_lines lines
unfolding join_lines
join_lines-feed [] (l, r, e) = cc
join_lines-feed (l ∷ ls) h = refl

-- The lines of a text, joined, are the text.
pub join_lines-split_lines : (t : Text) → join_lines (split_lines t) ≡ t
unfolding split_lines join_lines
join_lines-split_lines [] = refl
join_lines-split_lines (c ∷ s) = elim (Bool-cases (c == 10)) [
  | inl feed ↦
      let e : c ≡ 10 = ground (arith, feed) in
      rw feed (
        join_lines-feed (split_lines s) (split_lines-IsLines s)
        ∙ (ap (λ t. 10 ∷ t) (join_lines-split_lines s) ∙ ap (λ d. d ∷ s) (sym e)))
  | inr other ↦
      rw other (join_lines-cons_char c (split_lines s) ∙ ap (λ t. c ∷ t) (join_lines-split_lines s))
]

-- Line numbers from `low` on, below `high`, with more than four lines between them.
abbrev pub IsSpaced : (low high : ℕ) → List ℕ → Type 0
IsSpaced low high [] = Unit
IsSpaced low high (s ∷ ss) = (low ≤ s) × (s < high) × IsSpaced (s + 5) high ss

-- The same without the space.
abbrev IsBelow : (low high : ℕ) → List ℕ → Type 0
IsBelow low high [] = Unit
IsBelow low high (s ∷ ss) = (low ≤ s) × (s < high) × IsBelow (s + 1) high ss

IsBelow-later :
    (low more high : ℕ) (ss : List ℕ) → low ≤ more → IsBelow more high ss → IsBelow low high ss
IsBelow-later low more high [] h b = tt
IsBelow-later low more high (s ∷ ss) h (a, b, c) = (omega (arith, h, a), b, c)

hits_from-IsBelow : (i : ℕ) (lines : List Text) → IsBelow i (i + length lines) (hits_from i lines)
unfolding hits_from
hits_from-IsBelow i [] = tt
hits_from-IsBelow i (l ∷ ls) =
    let e : i + 1 + length ls ≡ i + suc (length ls) = omega arith in
    let later : IsBelow (i + 1) (i + suc (length ls)) (hits_from (i + 1) ls) =
      rw e at (hits_from-IsBelow (i + 1) ls) in
    elim (Bool-cases (is_boundary l ls)) [
      | inl found ↦ rw found ((omega arith, omega arith, later))
      | inr other ↦ rw other (IsBelow-later i (i + 1) _ (hits_from (i + 1) ls) (omega arith) later)
    ]

cluster_from-IsSpaced :
    (last low high : ℕ) (hits : List ℕ)
    → IsBelow low high hits
    → IsSpaced (last + 5) high (cluster_from last hits)
unfolding cluster_from
cluster_from-IsSpaced last low high [] b = tt
cluster_from-IsSpaced last low high (i ∷ hits) (a, b, c) =
    elim (Bool-cases (ltb cluster_gap (i - last))) [
      | inl far ↦ rw far ((ground (arith, far), b, cluster_from-IsSpaced i (i + 1) high hits c))
      | inr near ↦ rw near (cluster_from-IsSpaced last (i + 1) high hits c)
    ]

cluster-IsSpaced :
    (low high : ℕ) (hits : List ℕ) → IsBelow low high hits → IsSpaced low high (cluster hits)
unfolding cluster
cluster-IsSpaced low high [] b = tt
cluster-IsSpaced low high (i ∷ hits) (a, b, c) = (a, b, cluster_from-IsSpaced i (i + 1) high hits c)

boundaries-IsSpaced : (lines : List Text) → IsSpaced 0 (length lines) (boundaries lines)
unfolding boundaries
boundaries-IsSpaced lines =
    let e : 0 + length lines ≡ length lines = omega arith in
    cluster-IsSpaced 0 (length lines) (hits_from 0 lines) (rw e at (hits_from-IsBelow 0 lines))

pub take-drop : (n : ℕ) (xs : List Text) → take n xs ++ drop n xs ≡ xs
take-drop zero xs = refl
take-drop (suc n) [] = refl
take-drop (suc n) (x ∷ xs) = ap (λ ys. x ∷ ys) (take-drop n xs)

drop_nil : (n : ℕ) → drop {A = Text} n [] ≡ []
drop_nil zero = refl
drop_nil (suc n) = refl

drop-drop : (m n : ℕ) (xs : List Text) → drop n (drop m xs) ≡ drop (m + n) xs
drop-drop zero n xs = (let e : 0 + n ≡ n = omega arith in rw e refl)
drop-drop (suc m) n [] = drop_nil n ∙ sym (drop_nil (suc m + n))
drop-drop (suc m) n (x ∷ xs) =
    let e : suc m + n ≡ suc (m + n) = omega arith in rw e (drop-drop m n xs)

drop_all : (n : ℕ) (xs : List Text) → length xs ≤ n → drop n xs ≡ []
drop_all n [] h = drop_nil n
drop_all zero (x ∷ xs) h = absurd (omega (arith, h))
drop_all (suc n) (x ∷ xs) h = drop_all n xs (omega (arith, h))

-- The parts of the lines one after the other.
abbrev pub lines_of : List (List Text) → List Text
lines_of [] = []
lines_of (ls ∷ rest) = ls ++ lines_of rest

end_of-above :
    (s high : ℕ) (starts : List ℕ)
    → s < high
    → IsSpaced (s + 5) high starts
    → s ≤ end_of high starts
end_of-above s high [] b c = omega (arith, b)
end_of-above s high (t ∷ starts) b (a, _, _) = omega (arith, a)

lines_of-quoted_parts :
    (low : ℕ) (lines : List Text) (starts : List ℕ)
    → IsSpaced low (length lines) starts
    → lines_of (quoted_parts lines starts) ≡ drop (end_of (length lines) starts) lines
unfolding quoted_parts
lines_of-quoted_parts low lines [] h = sym (drop_all (length lines) lines (omega arith))
lines_of-quoted_parts low lines (s ∷ starts) (a, b, c) =
    let e = end_of (length lines) starts in
    let below : s ≤ e = end_of-above s (length lines) starts b c in
    let split : s + (e - s) ≡ e = omega (arith, below) in
    ap (λ ls. take (e - s) (drop s lines) ++ ls)
      (lines_of-quoted_parts (s + 5) lines starts c
        ∙ (ap (λ k. drop k lines) (sym split) ∙ sym (drop-drop s (e - s) lines)))
    ∙ take-drop (e - s) (drop s lines)

raw_of-parse_quoted :
    (parts : List (List Text))
    → map (λ (q : QuotedMessage). q.raw) (map parse_quoted parts)
      ≡ map (λ (ls : List Text). strip (join_lines ls)) parts
unfolding parse_quoted
raw_of-parse_quoted [] = refl
raw_of-parse_quoted (p ∷ ps) = ap (λ rs. strip (join_lines p) ∷ rs) (raw_of-parse_quoted ps)

-- The messages are, without the spaces around them, consecutive runs of lines that make up the body.
pub record IsCut (body : Text) (t : SplitThread) : Type 0 where
  pub newest : List Text
  pub history : List (List Text)
  pub is_latest : t.latest_message ≡ strip (join_lines newest)
  pub are_quoted :
      map (λ (q : QuotedMessage). q.raw) t.quoted_messages
      ≡ map (λ (ls : List Text). strip (join_lines ls)) history
  pub is_whole : join_lines (newest ++ lines_of history) ≡ body

split_at-IsCut :
    (body : Text) (min_latest_chars : ℕ) (lines : List Text) (starts : List ℕ)
    → IsSpaced 0 (length lines) starts
    → join_lines lines ≡ body
    → IsCut body (split_at body min_latest_chars lines starts)
unfolding split_at
split_at-IsCut body n lines [] h e = record {
  newest = lines;
  history = [];
  is_latest = ap strip (sym e);
  are_quoted = refl;
  is_whole = rw (append-nil lines) e;
}
split_at-IsCut body n lines (s ∷ starts) h e = record {
  newest = take s lines;
  history = quoted_parts lines (s ∷ starts);
  is_latest = refl;
  are_quoted = raw_of-parse_quoted (quoted_parts lines (s ∷ starts));
  is_whole =
      ap (λ ls. join_lines (take s lines ++ ls)) (lines_of-quoted_parts 0 lines (s ∷ starts) h)
      ∙ (ap join_lines (take-drop s lines) ∙ e);
}

-- However an email is cut into the newest message and the quoted ones, nothing of it is lost and nothing
-- comes twice: the messages, put together again, are the body, but for the spaces around each message.
pub split_thread-IsCut :
    (body : Text) (min_latest_chars : ℕ) → IsCut body (split_thread body min_latest_chars)
unfolding split_thread
split_thread-IsCut body n =
    split_at-IsCut body n (split_lines body) (boundaries (split_lines body))
      (boundaries-IsSpaced (split_lines body)) (join_lines-split_lines body)
