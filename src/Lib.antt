-- ===== src/Lib.antt =====
-- ISMS Portal: the rules of the document portal of apps/api/src, and the pattern filters of its web
-- client, as functions with proofs.
--
-- The parts, and the files that model them:
--   Access    who may do what: Access/Roles.antt is security.ts, Access/Categories.antt is
--             category-permissions.ts, and Access/Spaces.antt is authorization.service.ts, which
--             loads the rules of a space and gives them to the categories.
--   Audit     the chain of hashes over the audit events: Audit/Canonical.antt is the text that is
--             hashed and Audit/Chain.antt the rest of audit-chain.ts.
--   Approval  the second administrator's approval of sensitive operations: Approval.antt is
--             sensitive-approval.service.ts and the class ApprovalsController of
--             approvals.controller.ts.
--   Review    the decisions on document reviews: Review.antt is review-decision.ts and the class
--             ReviewInboxController of approvals.controller.ts, which calls it.
--   Retention  the retention of documents and their destruction: Retention.antt is in
--             governance.controller.ts, and Retention/Destroy.antt the worker in ged-worker.ts and
--             the trash in controllers.ts.
--   Hierarchy  the tree of the categories of a space, in controllers.ts.
--   Ged       the work on one document: Ged.antt is in ged.controller.ts, and Ged/Public.antt the
--             links to the outside in ged-sign-share.controller.ts, with the setting that
--             ged-settings.ts reads.
--   Signatures  the decisions on signature requests in ged-sign-share.controller.ts.
--   Publication  document-types.ts, version-label.ts and publication-review.ts; a publication makes
--             the first review of a document.
--   Sharing   sensitive-sharing.ts, which asks Access whether a document may be previewed; its
--             depositors, reminders and lists are in Sharing/.
--   Diff      the comparison of two versions in document-diff.ts.
--   Auth      the sign-in and the sessions of administrators in auth.service.ts.
--   Mailbox   the policy of mailboxes of the single sign-on in sso-mailbox-policy.ts.
--   Crypto    how secrets are encrypted, in crypto.service.ts.
--   Timestamps  the settings of the time stamps in ged-settings.ts, whose password Crypto encrypts.
--   Operations  notification-outbox.ts, and the rules of health-alerts.ts and worker-health.ts.
--   Excel     apps/web/app/excel-saved-filters.ts: Excel/Wildcard.antt is its pattern matcher.
--   Base      lists, tables with keys, and tests, shared by all parts.
--   Examples  the theorems at concrete inputs.
-- The names of the functions are those of the code in the spelling of this language.
--
-- A table of the database is a list of records, a query is a filter by its conditions, and a write
-- to the rows that meet a condition is `update_where`. A handler takes the store and the arguments
-- and returns the new store and how it ended; a refusal is a value of the type of endings. The
-- clock is an argument, read once for each handler, and `fresh` is the identifier that the database
-- gives to a new row. The functions of the platform (`toLowerCase`, the comparison of the database
-- in the mode "insensitive", SHA-256, scrypt, the cipher AES-256-GCM with its texts in base64, `toISOString`, `trim`,
-- `JSON.stringify`) are parameters, and so are the regular
-- expressions for slugs, tokens, identifiers and the names of protected files, what the directory
-- and the storage answer, and the environment.
--
-- Loops on fuel: the loop that looks for a cycle of categories gets as many rounds as there are
-- categories, and its theorem says that these are enough; the walk to the root of the categories
-- gets two more rounds than there are categories, since a category that is visited twice ends it;
-- the pages of the verification of the chain get more fuel than there are events; the matcher gets
-- what its theorem says is enough; the comparison of versions gets one round more than there are
-- lines.
--
-- Not modelled: the screens, the transport, the antivirus, storage, mail, directory and time stamp
-- clients, the rules of uniqueness of the database, and the handlers that only read and write
-- rows. `permittedSpaces`,
-- `timestampAuditSeals`, the middleware of the single sign-on and the saved filters themselves are
-- left out.
mod Base
pub mod Access
pub mod Audit
pub mod Approval
pub mod Excel
pub mod Review
pub mod Ged
pub mod Hierarchy
pub mod Mailbox
pub mod Timestamps
pub mod Crypto
pub mod Retention
pub mod Signatures
pub mod Operations
pub mod Auth
pub mod Publication
pub mod Diff
pub mod Sharing
pub mod Examples
