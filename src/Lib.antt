-- ===== src/Lib.antt =====
-- The assessment platform: staff send tests to candidates, who take them through a link, and the
-- backend scores them. This library models the backend's own logic and states and proves
-- its properties.
--
-- Parts, and how they interact:
--   * Canonical: what a test is. A test is frozen as a snapshot when it is sent (Canonical/Snapshot:
--     backend/src/assessments/canonical/snapshot.ts, `buildSnapshot`). When an attempt starts, the order
--     of questions and options is drawn from it (Canonical/Layout: canonical/layout.ts, `buildLayout`,
--     `shuffled`, `mulberry32`); when it ends, its answers are scored against it (Canonical/Scoring:
--     canonical/scoring.ts, `scoreAttempt`; Groups, Correct, Alignment and Attempt hold the code, the
--     other children the proofs). Canonical/Rules and Canonical/Questions: canonical/question-rules.ts,
--     with `normalizeQuestion` and `questionProblems`. Canonical/Slugs and Canonical/Mapper:
--     canonical/canonical.mapper.ts and canonical/question-data.ts, the form of a test that is exported and
--     stored; Canonical/Documents: canonical/document-rules.ts.
--   * Edit: staff write tests. Edit/Store holds the tables and `content`, which loads a test from them;
--     Edit/Sections, Edit/Questions and Edit/Bands: assessments/questions.service.ts; Edit/Settings:
--     assessments/assessments.service.ts; Edit/Previews and Edit/Files: how a file of questions is
--     imported and exported; Edit/Import: assessments/assessment-import.service.ts, and the
--     duplication of a whole test. Edit/Order holds the proofs on reordering.
--   * Take: a candidate's link and the attempts behind it. Take/Store holds the rows and the conditional
--     statements that write them; Take/Attempts: attempts.service.ts; Take/Service: take.service.ts;
--     Take/View: take-view.ts; Take/Guard: guards/invitation-token.guard.ts; Take/Status:
--     assessments/invitation.mapper.ts (`invitationStatus`) and dashboard/dashboard.service.ts
--     (`countLinks`). A method is a function from the store to a result and a store (Http). Take/Traces
--     is the state machine of an attempt over statements in any order; Take/Answering, Take/Submitting
--     and Take/Links hold proofs about the methods, the guard and the status; Take/Sent and
--     Take/Requests connect the methods to these statements. Take/Office and Take/Sending:
--     assessments/assessment-invitations.service.ts and candidates/candidates.service.ts, how a link is
--     made from the tests of Edit, resent and revoked. Take/Swept is about the sweep of overdue attempts.
--   * Auth: staff accounts (backend/src/auth). Auth/Store holds the rows; Auth/Tokens:
--     auth-tokens.service.ts; Auth/Guards: auth/guards/; Auth/Sessions: sessions.service.ts;
--     Auth/Accounts: auth.service.ts; Auth/Invites: invitations.service.ts; Auth/Requests: all of
--     them as requests, and the states that they lead to. Auth/Expiry, Auth/Renewed, Auth/Keeping, Auth/Kept,
--     Auth/Capped, Auth/SingleUse and Auth/Passwords hold proofs.
--   * Csv: backend/src/common/csv.ts, with the reading of quoted values in Csv/Quoting. Csv/Cells,
--     Csv/Header, Csv/Options and Csv/Rows: canonical/csv-questions.ts, how a file of questions is read, and
--     Csv/Writing: how it is written; Csv/Ready has the proof. Take/Results and
--     Take/Reviews: the results that staff see (invitation.mapper.ts, `attemptResult`).
--   * Schema: the rows of backend/prisma/schema.prisma. Prelude: shared lists, maps, sorting, strings and
--     integers. Tests: fixtures, and the theorems at them.
--
-- Choices: times are milliseconds from 0 up, and a request runs at one instant `now`, though the code
-- reads the clock at each use. Doubles are an interface (Float) with the laws that rounding keeps, and
-- fractions meet it. Random numbers, token and password hashes, row ids, links and the mail server are
-- parameters (Layout's `Random`, Auth/Store's `Platform`). Loops are structural recursion; the decimal
-- digits of a number n run on fuel n + 1, which is enough since n has no more than n + 1 digits; the search
-- for a free name runs on as much fuel as there are names that are taken, since one more name is free.
-- The case of letters and the normal form of Unicode are parameters (Canonical/Slugs' `Unicode`).
--
-- Not modelled: controllers and DTOs, the database client, mail, storage, configuration and the command
-- line tools, which are I/O and wiring; the frontend; the templates of a question file; the listings,
-- searches and statistics, which are database queries.
pub mod Prelude
pub mod Schema
pub mod Float
pub mod Canonical
pub mod Http
pub mod Csv
pub mod Edit
pub mod Take
pub mod Auth
pub mod Tests
