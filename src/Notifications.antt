-- ===== src/Notifications.antt =====
-- `ProcessedMessages` and `NotificationService` of src/services/notification_service.py: from a
-- notification to the handler, once per message. The mailbox is a parameter: `inbox` answers
-- `get_message`, with an exception where it answers `none`. The warnings for the log are left out.
pub mod Memory
pub mod Service
mod Examples
use rfq_workflow_agent.Base.{
  ℕ, Bool, true, false, Option, none, some, List, [], ◌∷◌, ◌++◌, if◌then◌else◌, ltb, length, drop,
}
use rfq_workflow_agent.Base.Text.{Text, text_eq, member}
use rfq_workflow_agent.Handlers.Effects.{
  EmailMessage, World, Trace, M, pure, attempt, raise, on_option, ◌>>=◌, ◌>>◌,
}
use rfq_workflow_agent.Handlers.Steps.{Handler}
use rfq_workflow_agent.Handlers.Run.{handle}

-- The ordered dictionary of the ids, the oldest first.
pub record ProcessedMessages : Type 0 where
  pub ids : List Text
  pub capacity : ℕ

unfoldable pub register : Text → ProcessedMessages → Bool × ProcessedMessages
register id p =
    if member id p.ids
    then (false, p)
    else let ids = p.ids ++ id ∷ [] in
      (true, record p { ids = if ltb p.capacity (length ids) then drop 1 ids else ids })

pub record ChangeNotification : Type 0 where
  pub client_state : Option Text
  pub resource_data : Option (Option Text)

-- `message_id`, the id of the resource data.
abbrev pub message_id : ChangeNotification → Option Text
message_id n = elim (n.resource_data) [ none ↦ none | some id ↦ id ]

-- The id of a notification that is trusted and names a message.
abbrev pub trusted_id : Text → ChangeNotification → Option Text
trusted_id client_state n = elim (n.client_state) [
  | none ↦ none
  | some c ↦ if text_eq c client_state then message_id n else none
]

-- The body of the loop of `accept` for an id: kept where it is seen for the first time.
abbrev pub kept : Text → Bool → List Text → List Text
kept id first rest = if first then id ∷ rest else rest

unfoldable pub accept :
    Text → List ChangeNotification → ProcessedMessages → List Text × ProcessedMessages
accept client_state [] p = ([], p)
accept client_state (n ∷ ns) p = elim (trusted_id client_state n) [
  | none ↦ accept client_state ns p
  | some id ↦
      let (first, q) = register id p in
      let (ids, last) = accept client_state ns q in (kept id first ids, last)
]

module _ {F : Type 0} (w : World F) (h : Handler) (inbox : Trace → Text → Option EmailMessage) where
  unfoldable pub get_message : Text → M EmailMessage
  get_message id s = on_option (inbox s id) raise pure s

  -- What `process` tries for one id.
  unfoldable pub process_one : Text → M Unit
  process_one id = do message ← get_message id; handle w h message

  unfoldable pub process : List Text → M Unit
  process [] = pure tt
  process (id ∷ ids) = do done ← attempt (process_one id); process ids
