-- ===== src/Documents/Loader/Complete.antt =====
-- The documents of one email, after its images have been shared out.
use rfq_workflow_agent.Documents.Budget.{Budget}
