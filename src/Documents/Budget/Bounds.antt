-- ===== src/Documents/Budget/Bounds.antt =====
-- What the budget holds back, and how long a text is that was cut.
use rfq_workflow_agent.Base.{
  ℕ, zero, suc, ◌+◌, ◌-◌, ◌*◌, ◌/◌, ◌^◌, ◌≤◌, ◌<◌, ◌≡◌, refl, ap, ◌↔◌, true, false, none, some,
  ◌++◌, length, take, drop, length-append, length-take, length-drop, arith, min,
}
use rfq_workflow_agent.Base.Text.{Text, txt}
use rfq_workflow_agent.Base.Digits.{show, length-show}
use rfq_workflow_agent.Documents.Budget.{
  Budget, Tracker, may_open, truncate, head_of, tail_of, marker,
}

-- The totals of one email stay within its budget.
abbrev pub Within : Budget → Tracker → Type 0
Within b t = (t.attachments_seen ≤ b.max_attachments) × (t.bytes_seen ≤ b.max_total_bytes)

-- A file is opened exactly when all three ceilings allow it. The totals stay within the budget, count
-- the bytes of the opened files only, and never shrink.
pub may_open_iff :
    (b : Budget) (size : ℕ) (t : Tracker)
    → Within b t
    → let (blocked, after) = may_open b size t in
      ((blocked ≡ none) ↔ (
        (t.attachments_seen < b.max_attachments)
        × (size ≤ b.max_single_bytes)
        × (t.bytes_seen + size ≤ b.max_total_bytes)))
      × Within b after
      × (after.bytes_seen ≡ (elim blocked [ none ↦ t.bytes_seen + size | some c ↦ t.bytes_seen ]))
unfolding may_open
may_open_iff b size t w = ground arith

length-tail_of : (k : ℕ) (text : Text) → 0 < k → length (tail_of k text) ≡ min k (length text)
unfolding tail_of
length-tail_of zero text h = omega (arith, h)
length-tail_of (suc k) text h = omega (arith, length-drop (length text - suc k) text)

marker_bounds : (shown : Text) → length shown ≤ 31 → length (marker shown) ≤ 64
marker_bounds shown h = omega (
  arith,
  length-append shown (txt " characters omitted ...]\n\n"),
  length-append (txt "\n\n[... ") (shown ++ txt " characters omitted ...]\n\n"),
  h,
)

length-cut : (a m z : Text) → length (a ++ (m ++ z)) ≡ length a + (length m + length z)
length-cut a m z = omega (arith, length-append a (m ++ z), length-append m z)

tail_of-drop : (k : ℕ) (text : Text) → 0 < k → tail_of k text ≡ drop (length text - k) text
unfolding tail_of
tail_of-drop zero text h = absurd (omega (arith, h))
tail_of-drop (suc k) text h = refl

-- A text of fewer than 10^31 characters that is cut, at a limit of 66 or more, is no longer than the limit. It keeps the same number
-- of characters of its start and of its end, together at least the limit less 65, with at most 64
-- between them. A text within the limit is left alone.
pub truncate_bounds :
    (text : Text) (limit : ℕ)
    → 66 ≤ limit
    → length text < 10 ^ 31
    → (length text ≤ limit → truncate text limit ≡ (text, false))
      × (limit < length text
          → (truncate text limit).1 ≡ true
            × (length (truncate text limit).0 ≤ limit)
            × ((keep : ℕ) × (between : Text) × ((truncate text limit).0
                  ≡ take keep text ++ (between ++ drop (length text - keep) text))
                × (limit ≤ 2 * keep + 65)
                × (length between ≤ 64)))
unfolding truncate head_of
truncate_bounds text limit low short = (
  λ fits. ground (arith, fits),
  λ long.
      let keep = (limit - 64) / 2 in
      let some' : 0 < keep = omega (arith, low) in
      let between = marker (show (length text - keep * 2)) in
      let small : length between ≤ 64 =
        marker_bounds _ (length-show (length text - keep * 2) 30 (omega (arith, short))) in
      let open_text : truncate text limit
          ≡ (take keep text ++ (between ++ tail_of keep text), true) =
        ground (arith, long, low) in
      rw (open_text) (
        (
          refl,
          omega (
            arith,
            length-cut (take keep text) between (tail_of keep text),
            small,
            length-take keep text,
            length-tail_of keep text some',
          ),
          (
            keep,
            between,
            ap (λ z. take keep text ++ (between ++ z)) (tail_of-drop keep text some'),
            omega arith,
            small,
          ),
        )),
)
