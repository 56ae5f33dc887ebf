-- ===== src/Lib.antt =====
-- The RFQ workflow agent, verified: an agent that reads a mailbox, decides which emails are requests
-- for quotation (RFQs), reads their line items, forwards each RFQ to its regional desk and labels it.
--
-- How the program's parts interact. A Graph notification reaches `src/services/notification_service.py`,
-- which drops repetitions and gives each email to `src/services/handlers.py`. The handler downloads and
-- reads the files, asks the triage for a verdict (`src/services/triage.py`, over the hard rules and the
-- policy of `src/domain/`), extracts the lines, fills the form, forwards, labels and journals, and at
-- last matches the lines against the product list (`src/services/matching/`).
--
-- Which file models which part:
-- - Base: tests on numbers, lists, and texts. A text is the list of its code points. Lower and
--   upper case, in the reading of headers too, are mapped for the ASCII letters only, where Python maps all
--   of Unicode. Base.Words is `\w`: exact for Latin, Greek, Cyrillic and most symbols, by blocks of scripts
--   beyond those.
-- - Domain.Enums, Domain.Models: `src/domain/enums.py` and `src/domain/models.py`. A datetime is a number.
-- - Domain.Policy: `src/domain/policy.py`. A float is a value of a type F with a comparison; what is
--   used of the comparison is a hypothesis of the theorem that uses it. Routing and Guardrails hold proofs.
-- - Domain.Regions: `src/domain/rules/regions.py`; its two regular expressions are written out as scans.
-- - Domain.Registries: `src/domain/rules/registries.py`, without the YAML loader.
-- - Domain.FastPath: `src/domain/rules/fast_path.py`, and the test of the recipients in
--   `src/domain/rules/hints.py`.
-- - Handlers.Effects: the monad that a method of the handler runs in. A trace lists the outside calls
--   made so far with what came of them, and a `World` answers each call from the trace, with a value or
--   with an exception. The mailbox, the models, the readers of files, the workbook and the stores are
--   asked in this way and nothing is assumed of their answers. The records never raise, since they guard
--   their own writes; the journal does.
-- - Handlers.Notes, Handlers.Steps, Handlers.Run: `src/services/handlers.py`, each method with its name
--   in the code; `handle` is the whole handler. Log lines and the tally of what the models cost are left
--   out. `note` uses fuel to print a number, one more than the number, which has fewer digits.
-- - Handlers.Quiet, Once, Bounded, Order, Gate, Again, Failure: proofs on one run of the handler.
-- - Notifications: `src/services/notification_service.py`.
-- - Documents.Models, Budget, Images, Loader: `models.py`, `budget.py` and `loader.py` of
--   `src/infrastructure/documents/`. The parsers of single files are a parameter. The recursion into
--   archives and attached emails is on the levels left, the depth allowed less the depth. Below the loader,
--   Follows, Kept, Complete, Opened, Spent and Totals hold proofs.
-- - Matching, Matching.Models: `src/services/matching/pipeline.py` and the records of `models.py`. The
--   product list, the judge and the scorer are parameters. Scored, Answers and Ranking hold proofs.
-- - Catalogue: `src/services/catalog.py`, the service that keeps the product list current. Each round
--   of its loop is given the answers of the sheet and the disk; a snapshot is written whole, without its
--   note, or not at all. Renewal holds proofs.
-- - Storage: `src/infrastructure/storage/records.py`, the folder of one record per email. Names are those
--   of the files, Store the updates, Open a new record. A `Disk` tells which writes succeed, whether the
--   counter can be read, and whether a counter that could not be written is still there. A write of a
--   body, of an attachment or of a form that fails is taken to leave no file, though the code could leave
--   a part of it. The search of a free name has one round more than there are names taken. Steps holds an abstract relation between the stores before and after a call;
--   Edits, Updates, Opens, Kept, Numbers and Frozen hold proofs. The lock of the store is taken as given:
--   one call runs at a time.
-- - Extraction.Cells, Extraction.Table: `src/services/extraction/table.py`, the rows and the tables of a
--   sheet. The loop of `column_letter` has one round more than the index. Letters, Extent and Blocks hold
--   proofs.
-- - Extraction.Dates, Imo, Header: `src/services/extraction/normalize.py`, with the regular expressions
--   of dates written out as scans. Reading, Later, Fields and Complete hold proofs.
-- - Preprocessing.Thread, Preprocessing.Boilerplate: `thread.py` and `boilerplate.py` of
--   `src/domain/preprocessing/`, with their regular expressions written out as scans. Parts and Signature
--   hold proofs.
-- - Domain.Hints: `src/domain/rules/hints.py`. The extraction of signals and the kind of an attachment by
--   its name are parameters. The loop over prefixes has as many rounds as the subject has characters.
-- - Classification: `src/services/classification/pipeline.py`. The model's answers are a parameter. Rules
--   holds proofs.
-- - The modules named Examples hold tests and the theorems at concrete inputs.
--
-- Not modelled: the prompts and the clients of the language models, the parsers of files and of HTML,
-- the reading of line items and headers by a model, the search in the product list, the quotations and
-- workbooks, the databases, the HTTP interface and the tools. They are calls to libraries and services,
-- layout, or parts that stand beside the path of an email.
pub mod Base
pub mod Domain
pub mod Handlers
pub mod Notifications
pub mod Storage
pub mod Extraction
pub mod Preprocessing
pub mod Classification
pub mod Catalogue
pub mod Documents
pub mod Matching
