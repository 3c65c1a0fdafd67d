-- ===== src/Tests.antt =====
-- The theorems at concrete inputs.
mod Samples
mod Mails
mod Scoring
mod Ingest
mod Persisting
mod Reviewing
mod Webhooks
mod Deleting
mod Closing
mod Feeding
mod Tallying
mod Listing
mod Configuring
mod Extracting
