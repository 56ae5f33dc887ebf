-- ===== src/Storage/Numbers.antt =====
-- The RFQ references that the records hand out.
use rfq_workflow_agent.Base.{
  ℕ, zero, suc, ◌+◌, ◌-◌, ◌≤◌, ◌≡◌, refl, sym, ap, ◌∙◌, Bool, true, false, Option, none, some, List,
  [], ◌∷◌, ◌++◌, length, drop, arith, All, All-append, Bool-cases, inl, inr,
}
use mathlib.Core.List.{append-nil}
use rfq_workflow_agent.Base.Text.{
  Text, text_eq, member, member-append, distinct, text_eq_refl, text_eq_iff,
}
use rfq_workflow_agent.Base.Digits.{show, number_from, number_from-show_end}
use rfq_workflow_agent.Storage.Records.{EmailRecord}
use rfq_workflow_agent.Storage.Store.{Disk, Folder, Store, folder_at, put_folder}
use rfq_workflow_agent.Storage.Open.{reference, zeros, issued}
use rfq_workflow_agent.Storage.Steps.{
  spares_counter, IsNumbered, IsNew, IsStep, stays, rewritten, added,
}
use rfq_workflow_agent.Storage.Kept.{Request, step_request, run_requests, step_request-Steps}

-- The number of a reference: what its digits write, behind `RFQ-`.
abbrev pub number_of : Text → ℕ
number_of t = number_from 0 (drop 4 t)

number_from-zeros : (k : ℕ) (t : Text) → number_from 0 (zeros k ++ t) ≡ number_from 0 t
unfolding number_from zeros
number_from-zeros zero t = refl
number_from-zeros (suc k) t = number_from-zeros k t

-- A reference is read back as its number.
pub number_of-reference : (n : ℕ) → number_of (reference n) ≡ n
unfolding reference
number_of-reference n = number_from-zeros (4 - length (show n)) (show n) ∙ number_from-show_end n

distinct-append :
    (t : Text) (xs : List Text)
    → distinct xs ≡ true
    → member t xs ≡ false
    → distinct (xs ++ t ∷ []) ≡ true
distinct-append t [] d h = refl
distinct-append t (x ∷ xs) d h =
    let later : distinct (xs ++ t ∷ []) ≡ true =
      distinct-append t xs (ground (arith, d)) (ground (arith, h)) in
    let differ : text_eq x t ≡ false = elim (Bool-cases (text_eq x t)) [
      | inr off ↦ off
      | inl same ↦
          let e : x ≡ t = (text_eq_iff x t).0 same in
          let again : text_eq t x ≡ true = rw e (text_eq_refl t) in ground (arith, h, again)
    ] in
    ground (arith, later, differ, d, member-append x xs (t ∷ []))

abbrev cons_some : Option Text → List Text → List Text
cons_some none ts = ts
cons_some (some t) ts = t ∷ ts

cons_some-append :
    (o : Option Text) (xs ys : List Text) → cons_some o (xs ++ ys) ≡ cons_some o xs ++ ys
cons_some-append none xs ys = refl
cons_some-append (some t) xs ys = refl

abbrev pub AreCounted : List Text → Option ℕ → Type 0
AreCounted ts counter =
    (distinct ts ≡ true) × All (λ t. (k : ℕ) × (k ≤ issued counter) × (t ≡ reference k)) ts

-- A number that is not counted yet has no reference in use.
counted-member :
    (c n : ℕ) (ts : List Text)
    → All (λ t. (k : ℕ) × (k ≤ c) × (t ≡ reference k)) ts
    → c + 1 ≤ n
    → member (reference n) ts ≡ false
counted-member c n [] a h = refl
counted-member c n (t ∷ ts) ((k, below, e), a) h = elim (Bool-cases (text_eq (reference n) t)) [
  | inr off ↦ ground (arith, off, counted-member c n ts a h)
  | inl same ↦
      let is : reference n ≡ reference k = (text_eq_iff (reference n) t).0 same ∙ e in
      let number : n ≡ k =
        sym (number_of-reference n) ∙ (ap number_of is ∙ number_of-reference k) in
      absurd (omega (arith, number, below, h))
]

counted-more :
    (c d : ℕ) (ts : List Text)
    → c ≤ d
    → All (λ t. (k : ℕ) × (k ≤ c) × (t ≡ reference k)) ts
    → All (λ t. (k : ℕ) × (k ≤ d) × (t ≡ reference k)) ts
counted-more c d [] h a = tt
counted-more c d (t ∷ ts) h ((k, below, e), a) =
    ((k, omega (arith, below, h), e), counted-more c d ts h a)

cons_some-AreCounted :
    (o : Option Text) (ts : List Text) (c d : Option ℕ)
    → AreCounted ts c
    → IsNumbered true c o d
    → AreCounted (ts ++ cons_some o []) d
cons_some-AreCounted none ts c d (apart, a) n =
    rw (append-nil ts) ((apart, counted-more (issued c) (issued d) ts (n refl) a))
cons_some-AreCounted (some t) ts c d (apart, a) (e, spared) =
    let n : issued d ≡ issued c + 1 = spared refl in
    let is : t ≡ reference (issued c + 1) = e ∙ ap reference n in
    let free : member t ts ≡ false =
      rw is (counted-member (issued c) (issued c + 1) ts a (omega arith)) in
    (
      distinct-append t ts apart free,
      All-append _ ts (t ∷ []) (counted-more (issued c) (issued d) ts (omega (arith, n)) a)
          ((issued c + 1, omega (arith, n), is), tt),
    )

module _ {F : Type 0} where
  abbrev pub reference_in : Option (EmailRecord F) → List Text → List Text
  reference_in none ts = ts
  reference_in (some r) ts = cons_some r.rfq_reference ts

  -- The references of all records.
  unfoldable pub references : List (Text × Folder F) → List Text
  references [] = []
  references ((_, f) ∷ fs) = reference_in f.email (references fs)

  -- No two records have the same reference, and each is that of a number already counted.
  abbrev pub IsCounted : List (Text × Folder F) → Option ℕ → Type 0
  IsCounted fs counter = AreCounted (references fs) counter

  references-put :
      (id : Text) (f g : Folder F) (r next : EmailRecord F) (fs : List (Text × Folder F))
      → folder_at id fs ≡ some f
      → f.email ≡ some r
      → g.email ≡ some next
      → next.rfq_reference ≡ r.rfq_reference
      → references (put_folder id g fs) ≡ references fs
  unfolding references folder_at put_folder
  references-put id f g r next [] at read wrote same = refl
  references-put id f g r next ((n, x) ∷ fs) at read wrote same = elim (Bool-cases (text_eq id n)) [
    | inr later ↦ rw (later, references-put id f g r next fs (rw later at at) read wrote same) refl
    | inl here ↦
        let is : some x ≡ some f = rw here at at in
        let e : x ≡ f = cc in rw (here, e, wrote, read, same) refl
  ]

  reference_in-append :
      (o : Option (EmailRecord F)) (xs ys : List Text)
      → reference_in o (xs ++ ys) ≡ reference_in o xs ++ ys
  reference_in-append none xs ys = refl
  reference_in-append (some r) xs ys = cons_some-append r.rfq_reference xs ys

  references-append :
      (fs : List (Text × Folder F)) (id : Text) (g : Folder F)
      → references (fs ++ (id, g) ∷ []) ≡ references fs ++ reference_in g.email []
  unfolding references
  references-append [] id g = refl
  references-append ((n, x) ∷ fs) id g =
      ap (reference_in x.email) (references-append fs id g)
      ∙ reference_in-append x.email (references fs) (reference_in g.email [])

  reference_in-AreCounted :
      (id : Text) (o : Option (EmailRecord F)) (ts : List Text) (c d : Option ℕ)
      → AreCounted ts c
      → IsNew true id c o d
      → AreCounted (ts ++ reference_in o []) d
  reference_in-AreCounted id none ts c d a n = cons_some-AreCounted none ts c d a n
  reference_in-AreCounted id (some r) ts c d a (_, n) =
      cons_some-AreCounted r.rfq_reference ts c d a n

  IsStep-IsCounted :
      (spared : Bool) (fs gs : List (Text × Folder F)) (c d : Option ℕ)
      → spared ≡ true
      → IsStep spared fs c gs d
      → IsCounted fs c
      → IsCounted gs d
  IsStep-IsCounted spared fs _ c _ on stays h = h
  IsStep-IsCounted spared fs _ c _ on (rewritten id f g r next at read wrote k) h =
      rw (references-put id f g r next fs at read wrote k.same_reference) h
  IsStep-IsCounted spared fs _ c d on (added id g free new) h =
      let next : IsNew true id c g.email d = rw on at new in
      rw (references-append fs id g) (reference_in-AreCounted id g.email (references fs) c d h next)

  -- Where no two records have the same RFQ reference and the counter is not behind any of them, this is
  -- so after any run of the writing calls, whichever of their writes to the disk fail, as long as each
  -- call can read the counter that is there, and a counter that cannot be written is not lost.
  pub run_requests-IsCounted :
      (stamp : ℕ → Text) (qs : List (Disk × ℕ × Request F)) (s : Store F)
      → All (λ q. spares_counter q.0 ≡ true) qs
      → IsCounted s.folders s.counter
      → IsCounted (run_requests stamp qs s).folders (run_requests stamp qs s).counter
  unfolding run_requests
  run_requests-IsCounted stamp [] s spared h = h
  run_requests-IsCounted stamp ((disk, now, q) ∷ qs) s (spares, spared) h =
      let after = step_request stamp disk now q s in
      run_requests-IsCounted stamp qs after spared (
        IsStep-IsCounted _ s.folders after.folders s.counter after.counter spares
          (step_request-Steps stamp disk now q s) h)
