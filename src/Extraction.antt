-- ===== src/Extraction.antt =====
-- backend/app/extraction: the pure pipeline.
pub mod Models
pub mod Scorer
pub mod General
pub mod Templates
pub mod Verification
pub mod Resolver
pub mod Content
pub mod Merchants
pub mod Pipeline
pub mod Mime
pub mod Program
pub mod Fit
