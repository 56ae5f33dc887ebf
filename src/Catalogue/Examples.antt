-- ===== src/Catalogue/Examples.antt =====
-- A service that comes up empty, misses the sheet once, and then reads it.
use rfq_workflow_agent.Base.{ℕ, ◌≡◌, refl, true, false, Option, none, some, List, [], ◌∷◌, length}
use rfq_workflow_agent.Base.Text.{Text, txt}
use rfq_workflow_agent.Catalogue.{
  Fetched, Service, Answer, Written, written_as, take_over, parsed, fetched_as, refresh,
  delay_after, rounds,
}
use rfq_workflow_agent.Catalogue.Renewal.{any_halved, KeepsServing, rounds-KeepsServing}

-- A sheet's text is its products, one for each character.
abbrev count : Text → ℕ
count t = length t

abbrev as_list : Text → Option Text
as_list t = some t

abbrev new : Service Text
new = record {
  has_sheet = true;
  refresh_minutes = 60;
  current = [];
  snapshot = none;
  has_task = false;
}

abbrev read : Text → Answer
read t = record { fetched = Fetched.sheet t; written = Written.whole }

abbrev answers : List Answer
answers =
    record { fetched = Fetched.unavailable; written = Written.whole }
    ∷ read (txt "ab")
    ∷ read []
    ∷ record { fetched = Fetched.sheet (txt "abc"); written = Written.without_note }
    ∷ []

-- The sheet that somebody empties does not replace the list. A snapshot that is left without its note
-- is ahead of the list in memory.
runs :
    rounds count [] as_list new answers
    ≡ (120 ∷ 3600 ∷ 120 ∷ 120 ∷ [], record new { current = txt "ab"; snapshot = some (txt "abc") })
unfolding rounds refresh delay_after fetched_as parsed take_over written_as
runs = refl

rounds-KeepsServing_example :
    KeepsServing count [] as_list (any_halved answers) new (rounds count [] as_list new answers).1
rounds-KeepsServing_example = rounds-KeepsServing count [] as_list new answers
