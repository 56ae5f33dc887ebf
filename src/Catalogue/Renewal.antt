-- ===== src/Catalogue/Renewal.antt =====
-- A product list that works is never replaced by one that does not.
use rfq_workflow_agent.Base.{
  ℕ, ◌<◌, ◌==◌, if_cases, ◌≡◌, refl, sym, ap, ◌∙◌, Bool, true, false, ◌||◌, Option, none, some,
  List, [], ◌∷◌, arith, Bool-cases, inl, inr, ◌⊎◌,
}
use rfq_workflow_agent.Base.Text.{Text}
use mathlib.Core.Path.{subst}
use rfq_workflow_agent.Catalogue.{
  Fetched, Refreshed, Service, Answer, Written, written_as, take_over, parsed, fetched_as, refresh,
  rounds,
}

-- A write that replaced the text and then raised.
abbrev pub is_halved : Written → Bool
is_halved Written.whole = false
is_halved Written.without_note = true
is_halved Written.nothing = false

abbrev pub any_halved : List Answer → Bool
any_halved [] = false
any_halved (a ∷ rest) = is_halved a.written || any_halved rest

module _ {C : Type 0} (size : C → ℕ) (empty : C) (index : Text → Option C) where
  -- The product list in memory holds products, and is that of the snapshot on disk.
  abbrev pub IsServing : Service C → Type 0
  IsServing s =
      (0 < size s.current)
      × ((text : Text) × (s.snapshot ≡ some text) × (index text ≡ some s.current))

  -- A snapshot whose text is that of a list with products.
  abbrev pub HoldsProducts : Option Text → Type 0
  HoldsProducts snapshot =
      (text : Text) × (c : C) × (snapshot ≡ some text) × (index text ≡ some c) × (0 < size c)

  -- The list in memory is the one that was there, or it holds products.
  abbrev pub KeepsList : Service C → Service C → Type 0
  KeepsList s t = (t.current ≡ s.current) ⊎ (0 < size t.current)

  -- Nothing changed, or the list in memory holds products and is that of the snapshot; or, where a
  -- snapshot was left without its note, the snapshot holds products.
  abbrev pub KeepsServing : (halved : Bool) → Service C → Service C → Type 0
  KeepsServing halved s t =
      KeepsList s t × ((t ≡ s) ⊎ (IsServing t ⊎ ((halved ≡ true) × HoldsProducts t.snapshot)))

  written_as-KeepsServing :
      (s : Service C) (text : Text) (c : C) (written : Written)
      → index text ≡ some c
      → 0 < size c
      → KeepsServing (is_halved written) s (written_as size empty index s text c written).1
  unfolding written_as
  written_as-KeepsServing s text c Written.whole e full =
      (inr full, inr (inl (full, (text, refl, e))))
  written_as-KeepsServing s text c Written.without_note e full =
      (inl refl, inr (inr (refl, (text, c, refl, e, full))))
  written_as-KeepsServing s text c Written.nothing e full = (inl refl, inl refl)

  parsed-KeepsServing :
      (s : Service C) (text : Text) (c : Option C) (written : Written)
      → index text ≡ c
      → KeepsServing (is_halved written) s (parsed size empty index s text c written).1
  unfolding parsed take_over
  parsed-KeepsServing s text none written found = (inl refl, inl refl)
  parsed-KeepsServing s text (some c) written found = elim (Bool-cases (size c == 0)) [
    | inl bare ↦ rw bare ((inl refl, inl refl))
    | inr full ↦ rw full (written_as-KeepsServing s text c written found (ground (arith, full)))
  ]

  fetched_as-KeepsServing :
      (s : Service C) (f : Fetched) (written : Written)
      → KeepsServing (is_halved written) s (fetched_as size empty index s f written).1
  unfolding fetched_as
  fetched_as-KeepsServing s (Fetched.sheet t) written =
      parsed-KeepsServing s t (index t) written refl
  fetched_as-KeepsServing s Fetched.unavailable written = (inl refl, inl refl)
  fetched_as-KeepsServing s Fetched.crashed written = (inl refl, inl refl)

  refresh-KeepsServing :
      (s : Service C) (a : Answer)
      → KeepsServing (is_halved a.written) s (refresh size empty index s a).1
  unfolding refresh
  refresh-KeepsServing s a =
      if_cases (λ (x : Refreshed × Service C). KeepsServing (is_halved a.written) s x.1) s.has_sheet
        (λ _. fetched_as-KeepsServing s a.fetched a.written) (λ _. (inl refl, inl refl))

  KeepsList-trans : (s t u : Service C) → KeepsList s t → KeepsList t u → KeepsList s u
  KeepsList-trans s t u h (inr k) = inr k
  KeepsList-trans s t u (inl e) (inl f) = inl (f ∙ e)
  KeepsList-trans s t u (inr h) (inl f) = inr (rw f h)

  KeepsServing-trans :
      (first later : Bool) (s t u : Service C)
      → KeepsServing first s t
      → KeepsServing later t u
      → KeepsServing (first || later) s u
  KeepsServing-trans first later s t u (l, h) (m, inr (inl k)) =
      (KeepsList-trans s t u l m, inr (inl k))
  KeepsServing-trans first later s t u (l, h) (m, inr (inr (on, k))) =
      (KeepsList-trans s t u l m, inr (inr (ground (arith, on), k)))
  KeepsServing-trans first later s t u (l, inl e) (m, inl f) =
      (KeepsList-trans s t u l m, inl (f ∙ e))
  KeepsServing-trans first later s t u (l, inr (inl h)) (m, inl f) =
      (KeepsList-trans s t u l m, inr (inl (subst (λ x. IsServing x) (sym f) h)))
  KeepsServing-trans first later s t u (l, inr (inr (on, h))) (m, inl f) =
      let same : u.snapshot ≡ t.snapshot = ap (λ x. x.snapshot) f in
      (KeepsList-trans s t u l m, inr (inr (ground (arith, on), rw same h)))

  -- Whatever the sheet and the disk answer in any number of rounds, the list in memory is the one that
  -- was there or holds products. The service is as it was; or its list holds products and is that of
  -- the snapshot on disk; or some round left a snapshot without its note, and the snapshot on disk
  -- holds products.
  pub rounds-KeepsServing :
      (s : Service C) (answers : List Answer)
      → KeepsServing (any_halved answers) s (rounds size empty index s answers).1
  unfolding rounds
  rounds-KeepsServing s [] = (inl refl, inl refl)
  rounds-KeepsServing s (a ∷ rest) =
      KeepsServing-trans (is_halved a.written) (any_halved rest) s _ _ (refresh-KeepsServing s a)
        (rounds-KeepsServing (refresh size empty index s a).1 rest)
