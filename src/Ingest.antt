-- ===== src/Ingest.antt =====
-- internal/ingest/handler.go and the replies of internal/platform/httperr/httperr.go: the HTTP edge.
-- Handler has the handler's data and the checks of a request, Submit handleSubmit.
pub mod Handler
pub mod Submit
pub mod Judged
pub mod Settled
