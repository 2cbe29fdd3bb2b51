-- ===== src/Take.antt =====
-- What a candidate does through a link (take.service.ts), closing and scoring attempts
-- (attempts.service.ts), who may use a link (invitation-token.guard.ts), what the candidate sees
-- (take-view.ts) and the status of a link (invitation.mapper.ts), under backend/src/assessments.
pub mod Store
pub mod Attempts
pub mod View
pub mod Service
pub mod Guard
pub mod Status
pub mod Results
pub mod Reviews
pub mod Traces
pub mod Sent
pub mod Requests
pub mod Answering
pub mod Submitting
pub mod Links
pub mod Swept
pub mod Office
pub mod Sending
