-- ===== src/Matching/Ranking.antt =====
-- The shortlist in the order of its scores.
use rfq_workflow_agent.Base.{
  ℕ, Bool, true, false, Option, none, some, List, [], ◌∷◌, ◌≡◌, ◌≤◌, refl, ◌∙◌, Bool-cases, inl,
  inr, arith, length, filter, All,
}
use rfq_workflow_agent.Matching.{ScoredItem, ranks_before, put, ranked}

-- The first score is no worse than the second: no lower, and there where the second is.
abbrev NoWorse : Option ℕ → Option ℕ → Type 0
NoWorse (some a) (some b) = b ≤ a
NoWorse (some a) none = Unit
NoWorse none (some b) = ⊥
NoWorse none none = Unit

abbrev Comes : ScoredItem → ScoredItem → Type 0
Comes c d = NoWorse c.confidence d.confidence

-- No candidate stands before one with a higher score, or without a score before one that has one.
abbrev pub IsRanked : List ScoredItem → Type 0
IsRanked [] = Unit
IsRanked (c ∷ cs) = All (Comes c) cs × IsRanked cs

ranks_before-NoWorse : (a b : Option ℕ) → ranks_before a b ≡ true → NoWorse a b
ranks_before-NoWorse (some a) (some b) h = ground (arith, h)
ranks_before-NoWorse (some a) none h = tt
ranks_before-NoWorse none (some b) h = cc
ranks_before-NoWorse none none h = tt

ranks_before-NoWorse_total : (a b : Option ℕ) → ranks_before a b ≡ false → NoWorse b a
ranks_before-NoWorse_total (some a) (some b) h = ground (arith, h)
ranks_before-NoWorse_total (some a) none h = cc
ranks_before-NoWorse_total none (some b) h = tt
ranks_before-NoWorse_total none none h = cc

NoWorse-trans : (a b c : Option ℕ) → NoWorse a b → NoWorse b c → NoWorse a c
NoWorse-trans (some a) (some b) (some c) h k = omega (arith, h, k)
NoWorse-trans (some a) (some b) none h k = tt
NoWorse-trans (some a) none (some c) h k = absurd k
NoWorse-trans (some a) none none h k = tt
NoWorse-trans none (some b) c h k = absurd h
NoWorse-trans none none (some c) h k = absurd k
NoWorse-trans none none none h k = tt

Comes-All :
    (c d : ScoredItem) (cs : List ScoredItem) → Comes c d → All (Comes d) cs → All (Comes c) cs
Comes-All c d [] h k = tt
Comes-All c d (e ∷ cs) h k =
    (NoWorse-trans c.confidence d.confidence e.confidence h k.0, Comes-All c d cs h k.1)

All-put :
    (P : ScoredItem → Type 0) (c : ScoredItem) (cs : List ScoredItem)
    → P c
    → All P cs
    → All P (put c cs)
unfolding put
All-put P c [] h k = (h, tt)
All-put P c (d ∷ ds) h k = elim (Bool-cases (ranks_before c.confidence d.confidence)) [
  | inl first ↦ rw first ((h, k))
  | inr later ↦ rw later ((k.0, All-put P c ds h k.1))
]

put-IsRanked : (c : ScoredItem) (cs : List ScoredItem) → IsRanked cs → IsRanked (put c cs)
unfolding put
put-IsRanked c [] h = (tt, tt)
put-IsRanked c (d ∷ ds) h = elim (Bool-cases (ranks_before c.confidence d.confidence)) [
  | inl first ↦
      let before : Comes c d = ranks_before-NoWorse c.confidence d.confidence first in
      rw first (((before, Comes-All c d ds before h.0), h))
  | inr later ↦ rw later (
      (
        All-put (Comes d) c ds (ranks_before-NoWorse_total c.confidence d.confidence later) h.0,
        put-IsRanked c ds h.1,
      ))
]

filter-put :
    (p : ScoredItem → Bool) (c : ScoredItem) (cs : List ScoredItem)
    → length (filter p (put c cs)) ≡ length (filter p (c ∷ cs))
unfolding put
filter-put p c [] = refl
filter-put p c (d ∷ ds) = elim (Bool-cases (ranks_before c.confidence d.confidence)) [
  | inl first ↦ rw first refl
  | inr later ↦ rw later (ground (arith, filter-put p c ds))
]

-- A shortlist that is ranked is in the order of its scores, the best first and those without a score
-- last, and holds exactly the candidates it had: of any kind, as many as before.
pub ranked-IsRanked :
    (cs : List ScoredItem)
    → IsRanked (ranked cs)
      × ((p : ScoredItem → Bool) → length (filter p (ranked cs)) ≡ length (filter p cs))
unfolding ranked
ranked-IsRanked [] = (tt, λ p. refl)
ranked-IsRanked (c ∷ cs) =
    let (sorted, same) = ranked-IsRanked cs in
    (put-IsRanked c (ranked cs) sorted, λ p. filter-put p c (ranked cs) ∙ ground (arith, same p))
