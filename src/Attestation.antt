-- ===== src/Attestation.antt =====
-- packages/sdk/src/attestation.ts: validation, signing, ingestion and verification of attestations.
pub mod Content
pub mod Signing
pub mod Native
pub mod Ingest
pub mod Verify
