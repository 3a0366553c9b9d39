-- ===== src/Lib.antt =====
-- Models of the programs of this repository and theorems about them.
--
-- Two programs carry the logic. Seal (apps/seal) signs documents: the API (seal-api) stores a
-- document in PostgreSQL and appends a job to a Redis list; the worker (seal-worker) takes the job,
-- renders, signs and uploads a PDF and appends a result to another list; the API's background
-- consumer writes the result to the document; the web interface (seal-ui) calls the API over HTTP.
-- atlasctl (tools/atlasctl) manages workloads in the GitOps repository.
--
-- Files and what they model:
--   Common: shared names, tests, lists measured by native numbers, results and actions.
--   Text: the functions of Go's packages strings and bufio that the programs use, on bytes; lines
--     are shorter than bufio.Scanner's limit. Children: Laws, Lines.
--   Seal/Messages: JobMessage, ResultMessage, Document and the keys of the lists
--     (apps/seal/seal-worker/internal/worker.go, apps/seal/seal-api/internal/repository.go).
--   Seal/Platform: what the programs call (Redis, the object store, PostgreSQL, PDF, uuid, JSON,
--     tracing, the clock) as a record of parameters. Platform/Laws and Platform/Database state the
--     documented behaviour that theorems take as hypotheses.
--   Seal/Worker: Run, process, pushResult, retryOrDLQ, pushToDLQ, removeFromProcessing of
--     apps/seal/seal-worker/internal/worker.go as `run`, `process` and so on; Upload of storage.go
--     as `upload`, GeneratePDF of pdf.go, Sign of signer.go. Its children hold the proofs:
--     Upload (attempts), Settle (one job), Delivery (faults), Rounds (the loop), Bound (how many
--     jobs are in work).
--   Seal/Api: the handlers of apps/seal/seal-api/internal/handler.go, the statements of
--     repository.go, PushTask and PopResult of queue.go, and the consumer of cmd/api/main.go as
--     `consume_round` and `consume`. Children: Create, Read, Consume.
--   Seal/EndToEnd: the worker, the consumer and the download handler together.
--   Seal/Ui: apps/seal/seal-ui/internal/client/api.go and internal/handlers/document.go.
--     Children: Retry, Pages.
--   Seal/Config: itoa, Addr and ConnString of apps/seal/seal-api/internal/config.go. Child: Number.
--   Seal/Signer: NewSigner, VerifyPDFSignature and issuerMatchesCA of
--     apps/seal/seal-worker/internal/signer.go. Child: Verify.
--   Atlasctl/Config: Load, merge, applyDefaults, resolvePaths and FindRepoRoot of
--     tools/atlasctl/pkg/config/config.go. Children: Merge, Paths.
--   Atlasctl/Gateway: tools/atlasctl/pkg/gateway/gateway.go and ApplyGatewayListener of
--     tools/atlasctl/pkg/gitops/gitops.go. Children: Listing, Removal.
--   Atlasctl/Kube: tools/atlasctl/pkg/k8s/k8s.go and KVPut of tools/atlasctl/pkg/vault/vault.go, over
--     kubectl as a parameter.
--   Atlasctl/Template: Defaults and Render of tools/atlasctl/pkg/template/template.go, GenerateSeed
--     and SecretSeedEnv of tools/atlasctl/pkg/template/seed.go.
--   Atlasctl/New: the command of tools/atlasctl/cmd/new.go as `new_workload`. Children: Render,
--     Frame.
--   Atlasctl/Seed: tools/atlasctl/pkg/seed/seed.go: ParseMapping, LoadParams and ValidateParams in
--     Seed, ProvisionDB in Seed/Database, ProvisionS3 in Seed/Storage, WriteVault in Seed/Secrets,
--     and the command of tools/atlasctl/cmd/seed.go in Seed/Command. Proofs: Names,
--     ReadBack, Database/Effect, Secrets/Undefined, Command/Guard.
--   Atlasctl/Disk: the calls of package os on files as a record of parameters, and clean absolute
--     paths as lists of components, joined as filepath.Join does. Disk/Laws states the documented
--     behaviour that theorems take as hypotheses; Disk/Paths has the laws of paths.
--   Atlasctl/Gitops: tools/atlasctl/pkg/gitops/gitops.go: ResolvePaths, CopyWorkloadManifest,
--     SyncResources, syncInfraResources, copyDir, RemoveAll and RemoveEmptyDir as `resolve_paths`
--     and so on; ApplyGatewayListener on the disk is in Gitops/Listener (proofs: Listener/Refine).
--     Proofs: Walk (what copying leaves), Copy (that it ends), Steps and Mirror (that it copies),
--     Sync, Infra and Shared (SyncResources).
--   Atlasctl/Enable: the command of tools/atlasctl/cmd/enable.go with runSeed and
--     gitCommitAndMaybePush. Children: Guard, Files, Publish.
--   Atlasctl/Disable: the command of tools/atlasctl/cmd/disable.go. Children: Effect, Undo, Whole.
--   Atlasctl/Status: what the commands of tools/atlasctl/cmd/status.go and list.go find out. Children:
--     Complete, Whole.
--   Atlasctl/Delete: the command of tools/atlasctl/cmd/delete.go. Child: Guard.
--   Tests: a platform and a disk in memory that satisfy the hypotheses, and theorems at concrete
--     inputs.
--
-- State: code that acts on the outside is a function from a world to a value and a world; an error
-- is its text. Between two calls of a program nothing else changes what the theorems on it speak of:
-- no other worker or client writes to the Redis lists, the table or the files. A Go
-- `(value, error)` is `ok` or `err`. Numbers are natural numbers.
--
-- Bounds: `Upload` and `doRequest` make at most three attempts, counted down as in the code. `run`
-- and `consume` take the number of rounds of the endless loops of the code, so a theorem about n
-- rounds is about a prefix of the run. `copyDir` calls itself for each directory; `copy_dir` takes how
-- deep it may go and ends with `deeper` where that is not enough.
--
-- Not modelled: logs, metrics, span attributes, time-outs of requests and the wiring in the `main`
-- packages, which do not change what the theorems speak of; the commands backup, logs and init of
-- atlasctl and its client of Argo CD, which run other programs and print; the charts, manifests and
-- scripts of the repository. The parsers of YAML and JSON, PostgreSQL, Redis and the object store
-- are parameters.
pub mod Common
pub mod Text
pub mod Seal
pub mod Atlasctl
mod Tests
