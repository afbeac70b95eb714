-- ===== src/Lib.antt =====
-- A model of the control plane of the cluster: the master, which keeps the books of its workers and
-- hands tasks to them, and the parts that decide where a task goes.
--
-- The program. The master (master/internal/server/master_server.go) holds a map of workers, each with
-- its capacity, its allocated and available amounts and its running tasks, and a queue of submitted
-- tasks. Every five seconds it asks a scheduler (master/internal/scheduler) for a worker for each
-- queued task and sends the task there. A worker reports when a task has ended; users cancel tasks;
-- the administrator adds and removes workers; clocks mark silent workers and compare the books with
-- the database. The risk-aware scheduler reads the telemetry (master/internal/telemetry) and
-- parameters that a training (master/internal/aod) writes to a file.
--
-- The files, by part of the program:
--   Base, Dict, Float, Proto   lists, integers, Go's maps, float64 and the messages
--   Server.State               the data of master_server.go
--   Server.Registry            ManualRegisterWorker, UnregisterWorker, RegisterWorker, SendHeartbeat,
--                              UpdateWorkerResourcesInMemory, checkAndMarkInactiveWorkers, GetWorkers
--   Server.Reconnect           ManualRegisterAndNotify, attemptWorkerReconnections
--   Server.Snapshot            GetClusterSnapshot
--   Server.Reconcile           ReconcileWorkerResources, reconcileSingleWorker
--   Server.Assign              assignTaskToWorker
--   Server.Queue               SubmitTask, EnqueueTask, processQueue, DispatchTaskToWorker
--   Server.Complete            ReportTaskCompletion
--   Server.Cancel              CancelTask
--   Server.Events              all of these as the events of one history
--   Scheduler.RoundRobin       round_robin.go, with its sort in Scheduler.Sort
--   Scheduler.Rts              rts_scheduler.go and NewTaskViewFromProto of rts_models.go
--   Scheduler.Params           the rest of rts_models.go, and rts_params_loader.go
--   Scheduler.Telemetry        telemetry_source.go
--   Aod                        affinity_builder.go, penalty_builder.go, theta_trainer.go, trainer.go
--   Telemetry.Tau, .Manager    tau_store.go, telemetry_manager.go
--   Logs                       log_broadcaster.go and log_manager.go of worker/internal/logstream
--   Paths                      the functions of path/filepath and strings that paths go through
--   Worker.Executor            executor.go of worker/internal/executor; its Run is ExecuteTask
--   Worker.Monitor             telemetry.go of worker/internal/telemetry
--   Worker.Server              worker_server.go of worker/internal/server: the calls of the master
--   Worker.Goroutines          what these calls start, in any interleaving
--   Upload                     uploadOutputFiles of worker/internal/server/worker_server.go and
--                              ReceiveFileStream of master/internal/storage/file_storage.go
--   Storage.Access             access_control.go of master/internal/storage
--   Storage.Files              the rest of file_storage.go, with its lock
--   Database.Defs              an interface of a MongoDB collection, keyed by the worker's name
--   Database.Workers           workers.go of master/internal/db on that interface
--   Database.Loading           LoadWorkersFromDB of master_server.go
--   Database.Effects, .Mirror  the calls of the handlers, run on the collection, beside the memory
--   Http.Tasks                 HandleCreateTask of master/internal/http/task_handler.go
--   Examples                   concrete inputs at which the theorems are applied
-- Below each of them stand the modules with its theorems, named for what they are about.
--
-- How the model corresponds to the code. A definition has the Go name in this language's spelling; an
-- operation on shared state takes the state and returns the new one. A handler also takes `Answers`:
-- what the database, the worker at the other end of a call and the network answer it, errors
-- included. Beside its reply and the new state it returns the calls it makes of them, in their
-- order. The handlers hold the server's lock, so a history is a list of events; assignTaskToWorker
-- gives the lock up for the call to the worker, and its two stretches under the lock are separate
-- definitions. A worker keeps the goroutines that it has started in its state, as values that say what
-- is left to be done; a history of it is a list of calls and of stretches of some goroutine. A call
-- of Docker is a value that is handed back, and its answer an argument. A message to the master
-- counts once for each attempt to send it, whether or not it arrives; one with a result carries what
-- the connection answers. Time is an argument. Log output is left out.
--
-- A float64 is a value of the interface `Float`: its operations are those of the language, its laws
-- are laws of IEEE 754 that hold for every double, and Float.Fixed fills it with thousandths so that
-- the definitions run. A map is an association list, taken in any order; a nil map is the empty
-- one. The four amounts of a task or a worker are one record. gonum's solution of the regression is
-- an argument of the training. Go's int counts are natural numbers, which the code keeps them.
-- Every loop is recursion on the list it goes over, or on the number of rounds that the code's own
-- bound gives; the loop that cuts a file has as many turns as the file has bytes, and each takes one
-- at least.
--
-- Not modelled: the MongoDB layer (master/internal/db) but for its workers, the other HTTP handlers, the
-- command line, the user interface, the owners of stored files, and of the worker process the
-- streams of log lines to the master, the ticker of its heartbeats and the detection of its
-- hardware. An upload is taken in the order of the stream.
pub mod Base
pub mod Float
pub mod Dict
pub mod Proto
pub mod Paths
pub mod Scheduler
pub mod Aod
pub mod Telemetry
pub mod Logs
pub mod Upload
pub mod Storage
pub mod Worker
pub mod Server
pub mod Database
pub mod Http
pub mod Examples
