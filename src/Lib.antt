-- ===== src/Lib.antt =====
-- A model of cloudvelo, the server of Velociraptor for the cloud: it keeps its data in an OpenSearch
-- index and in S3 in place of files. What is modelled are the foreman, which decides what each client
-- is sent; the ingestor, which handles what the clients send; the upload of files by the client in
-- parts, and the server's side of it; the result sets, which keep the rows of queries; the files in S3;
-- the access to the index; and of the services the labeler, the scheduler, the merge of a flow's
-- documents, the metadata of clients, and the users.
--
-- The parts, and the files of the repository that they follow:
--
--   Prelude    names that all modules share: Boolean tests, lists over the native numbers, Go's maps
--              as association lists, Go's pair of a value and an error as a result. Runs: what a
--              handler does, and whether it ended with an error, as a monad, for Foreman and Ingestion.
--   Utils      the two functions of Velociraptor's utils that the foreman calls, as an interface with
--              the law that it needs, and an instance.
--   Clients    schema/api/clients.go: the record of a client, and how its documents are merged
--              (GetMultipleClients). Fields and Exact are proofs.
--   Foreman    foreman/. Types: the hunts, tables, messages and the Plan. Labels:
--              foreman/event_monitoring.go (labelsKey, GetClientUpdateEventTableMessage). Plan:
--              planHuntForClient and planMonitoringForClient. Update: CalculateUpdate with its queries,
--              and the backlog. Outcome, Execute: foreman/plan.go, where the plan is carried out; what
--              it does is a list of effects, which ends with or without an error. Run: GetActiveHunts,
--              UpdatePlan, RunOnce and the loop of Start.
--   Uploads    vql/uploads/. Api: the interface of an uploader (api.go). Buffer: the buffered writer
--              (buffer.go), over any uploader. Uploader: VeloCloudUploader (uploader.go), which fills
--              the interface. Sparse: UploadSparse (sparse.go), the ranges of a file with holes.
--   UploadServer
--              server/upload.go: the handlers that the uploader's requests go to, and the calls of S3
--              that they make. Served connects the two; Guard, Retries and EndToEnd are proofs.
--   Elastic    services/elasticsearch.go and services/retry.go. Types: a request and its answer. Writes:
--              SetElasticIndex, UpdateIndex with their retries, and the deletions. Reads: the searches
--              and the reads of a record. Paging: QueryChan. Retries and Pages are proofs.
--   ResultSets result_sets/simple/. Writer: writer.go and factory.go. Reader: reader.go. Appends:
--              metadata.go, and the packets that the ingestor appends with a writer each. The other
--              modules say which rows a document holds, what the writer has sent, and what is read.
--   FileStore  filestore/writer.go: the writer of a file to S3, whose parts are tried eleven times with
--              one reader. Written is its proof.
--   Ingestion  ingestion/. Types: the messages, the documents and what a handler does, its effects. Hunts:
--              hunts.go, flow_stats.go and the records of schema/api/collections.go. Clients:
--              enrolment.go, registration.go, ping.go. Uploads: uploads.go with the names of
--              filestore/name_mapping.go. Vfs: vfs.go. Collections: collections.go, logs.go,
--              monitoring_logs.go. Process: ingestor.go. Authority, Flows and UploadKeys are proofs; the
--              last relates the ingestor to the uploader of the clients.
--   HuntStats  ingestion/services/hunts.go: the counters of a hunt, which the ingestor increments.
--              Counting, Conservation and Stranded are proofs.
--   Labeler    services/labeler/labeler.go, with its scripts. Removal, Sets and Requests are proofs.
--   Scheduler  services/scheduler/scheduler.go: the lease of a job, and its result.
--   Launcher   services/launcher/flows.go and index.go: a flow's documents, which the ingestor writes one
--              by one, are merged. Completion relates it to the ingestor.
--   Users      services/users/storage.go: the users, their options, and the cache of the users. RoundTrip
--              is its proof.
--   ClientInfo services/client_info/metadata.go: the metadata of a client. Override is its proof.
--
-- A handler is one function, with the code's tests in their order. A Go method that changes its
-- object takes and returns a record. A loop is recursion on its list, or recursion on fuel.
--
-- Outside the model, and so a parameter of it: the answers of the index, the launcher and the
-- client manager of an organisation, the HTTP client and S3 with what they answer, the encoders and
-- decoders of JSON and base64, the crypto manager, the hashes, an io.Reader, and the lower case of
-- a text. Where a theorem needs something of them it is a hypothesis: a reader gives no more bytes
-- than it is asked for (IsBounded); each side of an upload decodes what the other one encodes
-- (IsUnderstood), and S3 does what it is asked (IsAvailable); the index answers a packet query with
-- documents that hold the row, if there are any (IsAnswering), says that a document is missing only
-- where it is (IsHonest), answers a query that asks for an ascending order with the first rows, or the
-- first after a key (IsPaged), and gives what was written last under an id (IsStore,
-- IsOptionsStore); a put of a file's part that fails leaves the reader of the part at its start, and an
-- upload has a name (IsRewinding).
--
-- A script that the index is sent is part of the source, and so is a function here. Code that runs
-- concurrently is a sequence of steps: HuntStats has the steps of handlers and of the cache's expiry
-- in any order, with updaters shared by address, and Scheduler has one worker's turn after another's, each with the answer that its query got before.
--
-- Fuel: Copy ends after one round for each byte that is asked for, and one more, and the loops of
-- Rows and JSON after one round for each row that is left, and one more; QueryChan ends after one
-- round for each row and one more; the wait for a job's result has the 1000 rounds of the code, a
-- write of the index its ten tries, and a part of an upload its eleven. Every other function is
-- total by itself.
--
-- Simplifications. One pass of the foreman reads an index that does not change, and has one clock
-- value, which is not that of the round that it is a part of; an update and a flush of a hunt's
-- counters are one step each, although the code's lock covers only a part of them; times are natural
-- numbers, and a start time in nanoseconds does not overflow. A context is
-- not cancelled. Go goes through a map in any order; the loops over a map follow the order of the
-- list that stands for it, and the theorems hold for every such list. Logs and metrics are left
-- out. The row numbers of a result set are not negative. The index answers a search with a JSON
-- object, not with null. A buffer's bytes beyond its fill level are not kept.
--
-- Not modelled of these parts: the run with a dedicated organisation; the wait for the background
-- backlog, and how its writes interleave with the pass; the making of an uploader (its token and
-- the choice of a server); the mock of the ingestor; of the access to the index the templates, the
-- making of a client and the bulk indexer, which takes every document; the polls of a scheduler's
-- worker; how the index of flows is sorted and stored; a synchronous write of a result set that the
-- index refuses; the opening of a reader.
pub mod Prelude
pub mod Utils
pub mod Clients
pub mod Foreman
pub mod Uploads
pub mod UploadServer
pub mod Elastic
pub mod ResultSets
pub mod FileStore
pub mod Ingestion
pub mod Labeler
pub mod HuntStats
pub mod Scheduler
pub mod Launcher
pub mod ClientInfo
pub mod Users
