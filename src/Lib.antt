-- ===== src/Lib.antt =====
-- A verification library for Distri-Inference-Sidecar, a gRPC sidecar that batches inference
-- requests for an HTTP backend and sheds load under GPU memory pressure.
--
-- The parts of the program and the files that model them:
-- - internal/batcher: Batcher/Types (the types), Batcher/ReqMap (the map of waiters in flushBatch),
--   Batcher/Flush (flushBatch, failBatch, failRequest and the wrapping of errors), Batcher/Window
--   (dynamicWaitMs and the client's timeout), Batcher/Queue (Batcher, New, Submit, one tick of
--   trackQPS), Batcher/System (Start, collectBatch, drainQueueWithError, Stop and the flushes as
--   interleaved steps), Batcher/Collect (collectBatch as a function of the branches of its select),
--   Batcher/Writes (flushBatch as the list of its writes to what the goroutines share).
--   Batcher/System/Promise says what the batcher promises with no queue and no goroutines, and
--   Batcher/Writes/Observed which flushes call the backend.
--   Batcher/Answers describes what a flush owes its waiters with no loop and no map; the other files
--   below Batcher hold proofs.
-- - internal/vramguard: VramGuard (Config, Guard, NewWithReader, IsOpen, GetUsage, pollOnce and the
--   ticker of Start), VramGuard/Readers (parseSMIOutput, the NVML reader, newVRAMReader),
--   VramGuard/Watch (New, queryVRAMViaSMI, Start and Stop as steps), VramGuard/Stores (pollOnce store
--   by store).
-- - cmd/sidecar: Sidecar (loadAndValidateConfig, and what main passes to the guard and to the
--   batcher), Sidecar/Corpus (loadTokenizerCorpus and the start of the tokenizer), Sidecar/Process
--   (main from the start of its goroutines to its end, with the RPCs, as interleaved steps),
--   Sidecar/Closing (its last waits, and the HTTP server of internal/metrics).
-- - internal/tokenizer: Tokenizer (CountTokens, Validate), Tokenizer/Init (Init).
-- - rust_ops: RustOps (BPETokenizer::encode of src/bpe_token.rs; bpe_encode_len and
--   bpe_count_tokens of src/lib.rs), RustOps/Training (BPETokenizer::new and train),
--   RustOps/Publishing (bpe_train of src/lib.rs), RustOps/Batches (tokenize_len and the functions
--   over arrays of src/lib.rs).
-- - internal/grpcserver: GrpcServer (Infer in two halves around its select, HealthCheck,
--   recoveryInterceptor, the mapping of errors to statuses), GrpcServer/Serving (Server, New, Serve,
--   GracefulStop), GrpcServer/Health (HealthCheck load by load).
-- - internal/metrics: Metrics (the counters, the histograms and the gauge of the reader's mode),
--   Metrics/Registration (registerMetrics).
-- - Errors: Go error values, errors.Is, and the sentinels of internal/batcher/errors.go,
--   internal/tokenizer and the context package. Duration and Strings: what the program uses of the
--   packages time and strings.
-- Infer calls Validate and then Submit, which reads the guard's circuit and puts the request on the
-- batcher's queue; the batcher's loop collects batches, each flush sends one result on the channel
-- of each of its requests, and Infer maps that result to a response or a status. At the signal main
-- calls GracefulStop, Batcher.Stop and Guard.Stop, in this order.
--
-- How state is modelled: a result channel is a number and a send appends to one log, so that "one
-- result for each request" is a statement about the log; the buffer of one entry then never
-- blocks a send. The goroutines of the batcher are a step relation over one record. A flush is one
-- step, taken when its backend call is over: it writes only to its own waiters and to collectors;
-- Batcher/Writes/Interleaving has the writes of several flushes interleaved.
-- In Batcher/System, Submit is one step, with the circuit as it was read; in Sidecar/Process an RPC
-- reads the circuit in one step, at any time before it submits. There the number of an RPC stands
-- for its context and its channel, and the steps of the batcher and of the guard are those of
-- Batcher/System and VramGuard/Watch. A panic of the guard's goroutine would end the process; in
-- the steps the others may go on, so that what holds of all runs holds of the shorter ones. One
-- call of Batcher.Stop is modelled, as main makes it.
--
-- What is a parameter: JSON encoding, HTTP, the clock, the state of contexts and the order of a
-- range over a map (Batcher.Flush.Env), float64 with the IEEE laws of comparison (Float), what the
-- VRAM reader of a guard returns, the answers of the NVML library, how a run of nvidia-smi ends, the
-- environment, os.ReadFile, the parsing of URLs, the verb %q, UTF-8 decoding, and the order in which
-- train visits its map of pairs. Tokenizer and GrpcServer take the token count of rust_ops as
-- an argument, for which RustOps/Counting puts the one of RustOps. The gRPC library is taken by
-- its documentation: GracefulStop admits no new RPC and waits for those in progress, and Serve
-- returns nil only then; and so is a Prometheus registry, which refuses a name that it has.
-- Machine integers: durations are int64 nanoseconds with their wrap-around (Prelude/Int);
-- counters, lengths, latencies and token numbers are unbounded natural numbers.
-- Fuel: the printing of decimals has as many rounds as the number, and the loop of train has one
-- round more than the corpus has tokens, of which each round takes at least one away
-- (RustOps/Training/Ending).
--
-- Not modelled: what the HTTP server of internal/metrics answers (fixed handlers of libraries),
-- free_string of rust_ops, which releases memory, the Python backend, generated code, and log lines.
mod Prelude
pub mod Errors
pub mod Metrics
pub mod Duration
pub mod Float
pub mod Strings
pub mod VramGuard
pub mod RustOps
pub mod Tokenizer
pub mod Batcher
pub mod GrpcServer
pub mod Sidecar
mod Tests
