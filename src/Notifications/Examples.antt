-- ===== src/Notifications/Examples.antt =====
-- The service at a batch that names one message twice, one without trust and one without an id.
use rfq_workflow_agent.Base.{
  ◌+◌, ◌*◌, ◌≤◌, ◌≡◌, refl, true, Option, none, some, List, [], ◌∷◌, if◌then◌else◌, arith,
}
use rfq_workflow_agent.Base.Text.{Text, txt, member}
use rfq_workflow_agent.Handlers.Effects.{EmailMessage, Trace}
use rfq_workflow_agent.Handlers.Once.{sent_count, tried_count, is_ok}
use rfq_workflow_agent.Handlers.Examples.{handler, message, world}
use rfq_workflow_agent.Notifications.{
  ProcessedMessages, ChangeNotification, register, accept, process,
}
use rfq_workflow_agent.Notifications.Memory.{
  IsBounded, accept-IsBounded, Accepted, trusted_ids, accept-Accepted, accept-again,
}
use rfq_workflow_agent.Notifications.Service.{AreHandled, process-once}

abbrev secret : Text
secret = txt "s"

abbrev about : Text → ChangeNotification
about id = record { client_state = some secret; resource_data = some (some id) }

abbrev batch : List ChangeNotification
batch =
    about (txt "m1")
    ∷ about (txt "m2")
    ∷ record { client_state = some (txt "x"); resource_data = some (some (txt "m3")) }
    ∷ record { client_state = some secret; resource_data = none }
    ∷ about (txt "m1")
    ∷ []

abbrev memory : ProcessedMessages
memory = record { ids = txt "m0" ∷ []; capacity = 6 }

abbrev small : ProcessedMessages
small = record { ids = txt "m0" ∷ []; capacity = 1 }

accepts :
    accept secret batch memory
    ≡ (txt "m1" ∷ txt "m2" ∷ [], record { ids = txt "m0" ∷ txt "m1" ∷ txt "m2" ∷ []; capacity = 6 })
unfolding accept register
accepts = refl

-- A memory of one forgets the first message before it is named again.
forgets :
    accept secret batch small
    ≡ (txt "m1" ∷ txt "m2" ∷ txt "m1" ∷ [], record { ids = txt "m1" ∷ []; capacity = 1 })
unfolding accept register
forgets = refl

abbrev inbox : Trace → Text → Option EmailMessage
inbox s id = if member id (txt "m1" ∷ []) then some message else none

leb_one : 1 ≤ 1
leb_one = omega arith

room_one : 1 ≤ 6
room_one = omega arith

room_all : 1 + 5 ≤ 6
room_all = omega arith

accept-Accepted_example :
    Accepted memory.ids
      (trusted_ids secret batch)
      (accept secret batch memory).0
      (accept secret batch memory).1
accept-Accepted_example = accept-Accepted secret batch memory (refl, room_one) room_all

accept-again_example :
    accept secret batch (accept secret batch memory).1 ≡ ([], (accept secret batch memory).1)
accept-again_example = accept-again secret batch memory (refl, room_one) room_all

process-once_example :
    (is_ok (process world handler inbox (txt "m2" ∷ txt "m1" ∷ []) []).0 ≡ true)
    × AreHandled world handler inbox
        (txt "m2" ∷ txt "m1" ∷ [])
        []
        (process world handler inbox (txt "m2" ∷ txt "m1" ∷ []) []).1
    × (sent_count (process world handler inbox (txt "m2" ∷ txt "m1" ∷ []) []).1 ≤ 0 + 2)
    × (tried_count (process world handler inbox (txt "m2" ∷ txt "m1" ∷ []) []).1 ≤ 0 + 2 * 2)
process-once_example = process-once world handler inbox (txt "m2" ∷ txt "m1" ∷ []) []

accept-IsBounded_example : IsBounded (accept secret batch memory).1
accept-IsBounded_example = accept-IsBounded secret batch memory (refl, room_one)
