-- ===== src/Lib.antt =====
-- This library models the model inference server: a gRPC server that loads models from a repository
-- on disk, keeps it under watch, queues inference requests per model and answers them from runner
-- threads, together with its client. The code is C++ under src/.
--
-- A request enters at an RPC handler (src/core/server/grpc_server.cc), which makes a context and a
-- payload of it and asks the core (src/core/server/inference_core.cc) for InferAsync. The model
-- manager (src/core/model_manager) finds the model and enqueues the payload at its scheduler
-- (src/core/scheduler), whose runners call the backend (src/core/backend) and then the payload's
-- completion, which fills the response and finishes the RPC.
--
--  * Status.antt: src/core/status.h.
--  * Platform.antt: PlatformHelper of src/core/basic_data.h, names of src/core/constants.h.
--  * Config.antt: the configuration classes, the limits, and ServiceHelper::LoadServerConfig
--    (src/core/service_config.cc).
--  * Proto.antt: the messages of src/proto, with the fields that the program touches.
--  * Payload.antt: InferencePayload (src/core/inference_payload.cc).
--  * InferContext.antt: GrpcInferRequestContext (src/core/server/grpc_infer_request_context.cc).
--  * Queue.antt: BlockingQueue (src/core/scheduler/simple_scheduler.h).
--  * Scheduler.antt: SimpleScheduler (src/core/scheduler/simple_scheduler.cc); Scheduler/System.antt
--    is the scheduler with all threads that use it.
--  * Backend.antt and Backend/Demo.antt: ModelBackend, DemoBackend and its factory.
--  * Files.antt: src/utils/file_system. Version.antt: std::stoll and the choice of a version.
--  * Manager.antt and Manager/Cycle.antt: ModelManager (src/core/model_manager/model_manager.cc).
--  * Core.antt: InferenceCore and the calls of GrpcServer. Handler.antt: Handler and HandlerState;
--    Handler/Actions.antt: the three TakeActions. Main.antt: src/core/main.cc.
--  * Server.antt: all of these put together: a relation between states, with a constructor for each
--    step of the infer handler, a runner, LoadModels and Stop.
--  * Client.antt: src/clients/infer_request_context.cc and the probes of src/clients/example_client.cc;
--    Client/Inference.antt: RequestInference and main of src/clients/example_client.cc;
--    Client/Rpc.antt: src/clients/infer_rpc_client.h.
--  * Outcome.antt holds exceptions as values; Common.antt the shared helpers; Examples.antt the
--    theorems at concrete inputs.
--
-- A function or method has the source's name in lower case with underscores, and a class the
-- source's. An object is a record and an operation a function from the old state to the new one with
-- what it returns. A call that may throw yields an Outcome. A call that waits on a condition variable
-- or a join is none: it has not returned, and the state is as before. Raw pointers to backends and
-- RPC states are addresses on explicit heaps, so that a use after the destruction can be stated.
--
-- Threads are interleavings: the scheduler's System is a step function over lists of events, each event
-- one step that the code makes under a lock or on its own, and the theorems hold for every list of
-- events; so is the destruction of a model's context (Manager/Destruction.antt). The Handler has a step
-- function too, which runs OnCompleted of any state. The server put together and concurrent calls of a backend
-- (Backend/Concurrent.antt) are step relations, with theorems on every state that can be reached. In
-- the server put together what TakeAction does after InferAsync is one step with it, for it touches
-- nothing that the threads share; a scheduler whose context was destroyed goes on until its Stop has
-- returned, and the payloads that it has even then are recorded as lost; its status and health
-- handlers, which only read the core, are left out. A runner is the point of ProcessLoop where it
-- stands. There is no fuel, but for the decimal print of 32-bit numbers, which have at most ten digits.
--
-- Parameters stand for what is not in the repository: yaml-cpp (Config.Yaml), boost::filesystem and
-- the file streams (Files.Boost), protobuf's text parser (Manager.World), the gRPC stub (functions in
-- Client.antt), and the completion queue of gRPC, which returns each started operation once
-- (Handler.antt). What a backend's context returns is an argument or the environment's.
--
-- Not modelled: the generated protobuf and gRPC code, logging, flag parsing, the timer
-- (src/utils/timer, differences of the system clock in floating point, of which the scheduler's Stop
-- takes a reading as an argument), and the test drivers. Of gRPC's server builder only that it aborts the
-- program when a service is registered again is modelled, and what GrpcServer::Stop comes to is what it
-- returns once the handlers' threads have ended. An integer that only counts objects in memory
-- is unbounded; casts that the code's behaviour depends on are written out.
pub mod Common
pub mod Outcome
pub mod Status
pub mod Platform
pub mod Proto
pub mod Payload
pub mod InferContext
pub mod Queue
pub mod Config
pub mod Scheduler
pub mod Backend
pub mod Files
pub mod Version
pub mod Manager
pub mod Core
pub mod Handler
pub mod Main
pub mod Server
pub mod Client
pub mod Examples
