-- ===== src/Lib.antt =====
-- Holonomy: governed reads and writes of Parquet files. A file's sensitive columns are encrypted
-- one by one; a policy, merged from signed layers, says which role sees a column in clear, hashed
-- or redacted, which rows a role sees and which columns must be encrypted; a data contract says
-- what may be written; reads and writes are audited.
--
-- The parts, and how they interact. The policy manager
-- (holonomy-core/src/manager/policy_manager.rs) verifies the layers and merges their manifests
-- (policy/manifest.rs). The governance manager (manager/governance_manager.rs) takes the merged
-- manifest and the user context of a token (auth/jwt_validator.rs), resolves the role of the
-- reader and masks each column. The row filters of the policy are parsed to predicates
-- (ingestion/s3_client.rs), which rule out row groups by their statistics and test the rows of
-- the others (governance/simd_ops.rs). The configuration (config/) gives the salt of the hashes,
-- the time to live of caches and the place of the license (manager/license_manager.rs), whose
-- flag the audit events carry. A write (manager/write_orchestrator.rs) checks its batch against
-- the data contract, asks the policy which columns to encrypt, gets their keys
-- (manager/crypto_manager.rs, crypto/pme_encrypt.rs), collects them in sidecars, and streams the
-- file to the object store in parts. A read (manager/read_orchestrator.rs) opens a file with the
-- keys of its user, reads a column with the columns that the row filters need, filters the rows
-- and masks the column; a scan (manager/scan_orchestrator.rs) does so for columns of several
-- files, batch by batch. The linter (linter/validator.rs) checks a batch against its data
-- contract; the key cache (crypto/dek_cache.rs) holds the keys of the columns; the audit events
-- of reads and writes go through a bounded buffer to the broadcaster (audit/). The schemas of the
-- files of a table are compared for drift (schema/drift.rs).
--
-- Files, each with the code that it models:
--   Policy, Policy/Manager: PolicyManifest::merge; PolicyManager with verify_signatures and
--     merge_layers. Policy/Merge, Policy/Restrictions and Policy/WellFormed have the laws of the
--     merge of two layers; Policy/Manager/Sorting, Folding and Layers those of all; Signed has
--     those of the signatures. Policy/Encrypt: PolicyManager::resolve_columns_to_encrypt, with
--     its laws in Encrypt/Union and Encrypt/Layers.
--   Auth: UserContext::deserialize, identity. Auth/Principals has its laws.
--   Arrow: the arrays of the crate arrow, as an interface with laws.
--   Governance: GovernanceManager::resolve_active_role and apply_rls; Governance/Hash:
--     compute_salted_hash_into (governance/simd_ops.rs). The laws are in Roles (which role),
--     Masks and Masking (which mask), Columns (what is handed out) and Shape (its length).
--   Predicate, Predicate/Parse: Predicate with evaluate_statistics and parse_filter, and the
--     choice of row groups and byte ranges of S3Client. The laws are in Prune, Ranges and
--     Parse/Laws.
--   Filter: GovernanceEngine::evaluate_filter (governance/simd_ops.rs), the test of a row filter
--     on the values of a column. The laws are in Rows.
--   Config, Config/Resolve: merge_config and resolve_configuration. The laws are in Merge and
--     Resolve/Precedence.
--   Linter, Linter/Types: the data contract, Validator and its methods (linter/validator.rs). The
--     laws are in Rows (the rows of a column), Conform (a batch and the validator), Compile (the
--     maps of the validator), Find and Contract (a batch and the contract, as Promise describes
--     it).
--   Drift: has_schema_drift and check_drift_for_uris (schema/drift.rs). The laws are in
--     Detection.
--   DekCache: DekCache. The laws are in Expiry.
--   License: resolve_and_verify_license (manager/license_manager.rs) and verify_manifest
--     (policy/signer.rs). The law is in Genuine.
--   Crypto: CryptoManager (manager/crypto_manager.rs), the keys of PmeEncryptor
--     (crypto/pme_encrypt.rs) and KmsAdmin (crypto/kms_admin.rs). The laws are in Metadata (from
--     the writer to the reader), Unwrap (the cache) and Shred.
--   Upload: S3MultipartUploader::upload_stream (crypto/pme_encrypt.rs), as a relation of steps.
--     The laws are in Sorting, Parts (every state), Complete (the end) and Progress.
--   Write, Write/Orchestrator: WriteOrchestrator (manager/write_orchestrator.rs); Write/Channel:
--     its sink ChannelWriter; Write/Sidecar: the sidecars (manager/sidecar.rs). The laws are in
--     Keys and Gate (what stands before an upload), Flush, Channel/Bytes and Channel/Task (from
--     the bytes to the object) and Sidecar/Entries.
--   Read, Read/Batches, Read/Orchestrator: ReadOrchestrator::read (manager/read_orchestrator.rs);
--     Batches filters the rows. The laws are in Plan (the predicates of the row filters), Pick,
--     Rows and Kept (the rows that are kept), Errors, Layers, Tags (the tags and the index of a
--     column, described without the loops), Gate and Account (what stands behind a column that is
--     returned, and what is recorded).
--   Scan, Scan/Columns, Scan/Orchestrator: ScanOrchestrator::scan (manager/scan_orchestrator.rs),
--     with the messages of its task as a list; Columns has the columns that it asks for. The laws
--     are in Messages (what stands behind a batch that is sent), Files (the files that are
--     opened, and how their columns are masked) and Account.
--   Audit: AuditRingBuffer and AuditBroadcaster::run; what the local file answers is an argument.
--     The laws are in Newest, Buffer, Broadcast and Turn.
--   Common: numbers, lists, texts, association lists and results that the parts share.
--   A file Tests in each part runs the code on small inputs and applies the theorems to them.
--
-- Correspondence. Functions have the names of the source; a method takes its object as an
-- argument and returns the new one. A HashMap or DashMap is an association list; what depends on
-- distinct keys says so in a hypothesis. `?` is the bind of Result; a panic is a value of its own
-- (Outcome in Predicate/Parse, with a result inside in Read). Numbers are natural numbers: caps,
-- lengths and times that the code never brings near the end of their machine type (the numbers of
-- parts among them, an i32). An i64 is an integer with its range written out where a text is
-- parsed. Bytes of a text are its UTF-8 bytes.
--
-- Fuel. The loop of AuditRingBuffer::push turns twice at most where no other thread pushes in
-- between, since one pop makes room (Audit/Buffer); the drain turns at most once more than there
-- are events, and the delivery at most once more than there are retries (Audit/Broadcast); the
-- loop of ChannelWriter::write turns at most once more than there are bytes (Write/Channel). All
-- other loops are recursions on lists.
--
-- Parameters, for code that is not in the repository: serde_json, hex and ed25519_dalek (Codec,
-- Services, Json, Crypto.Codec), moka (Moka), the Parquet writer and the uploader (Outside), the
-- key service (KmsProvider), the object store (the relation Answers), crossbeam's ArrayQueue
-- (ArrayQueue, QueueLaws), arrow (Arrow, ArrowLaws), the crate regex, floating-point numbers and
-- null counts (Engine, EngineLaws), the types of parquet (Types, TypesLaws), SHA-256, the parsers
-- of chrono (Chrono, Services), the comparison kernels of arrow (Kernels, KernelLaws), its
-- filters and batches (Compute, ComputeLaws), the Unicode tables of to_lowercase, the toml
-- parser, the file system and the environment (System), the clock and the answers of the network
-- (arguments).
--
-- A record batch takes any arrays of one length: the check of RecordBatch::try_new against null
-- in a field that does not allow it is not modelled, nor is the panic of an index past the
-- columns of a row group in a scan. Of UserContext the field extra, which nothing reads, is left
-- out.
--
-- Not modelled: the warming of the key cache by a scan, the encryption of columns and the key
-- services themselves, the token validator, the schema registry, the requests to object stores,
-- the command line and the Python bindings; interleavings of threads within one call.
pub mod Arrow
pub mod Audit
pub mod Auth
pub mod Common
pub mod Config
pub mod Crypto
pub mod DekCache
pub mod Drift
pub mod Filter
pub mod Governance
pub mod License
pub mod Linter
pub mod Policy
pub mod Predicate
pub mod Read
pub mod Scan
pub mod Upload
pub mod Write
