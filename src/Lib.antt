-- ===== src/Lib.antt =====
-- butido builds packages in containers. From the `pkg.toml` files of a repository it makes the
-- graph of a package and of everything that package depends on; it makes one job of each package;
-- and it runs the jobs as tasks that pass their results on to the tasks which wait for them.
--
-- The files, and the code that they model (paths from the repository's root):
--
-- Prelude        what the others share: results (`Result`, `anyhow::Result`), lists, association
--                lists for `HashMap` and `BTreeMap`, Boolean tests and equality
-- Package        src/package: Package/Condition is dependency/condition.rs (`Condition::matches`),
--                Package/Types the records of package.rs, source.rs, phase.rs and of the two kinds
--                of dependencies with their `check_condition`, Package/Dependency the
--                parsing of "name version" (dependency/mod.rs)
-- Package/Dag    src/package/dag.rs: Dag/Dependencies is `get_package_dependencies`, Dag/Graph
--                the interface of petgraph's `Acyclic<DiGraph>`, Dag/Build `for_root_package` with
--                `add_sub_packages` and `add_edges`, over `Repository::find_with_version`
--                (src/repository/repository.rs)
-- Repository     src/repository: Repository/Paths is `normalize_relative_path` (repository.rs) and
--                fs/path.rs, Repository/Representation the tree of `pkg.toml` files
--                (fs/representation.rs and fs/element.rs), Repository/Search the queries of
--                repository.rs
-- Images         src/util/docker.rs: the lookup of long and short image names
-- Filestore      src/filestore: a store of artifacts, `get` and `load_from_path` (util.rs);
--                Filestore/Staging is `unpack_archive_here` (path.rs) and
--                `write_files_from_tar_stream` (staging.rs)
-- Orchestrator   src/orchestrator/orchestrator.rs: Orchestrator/Task is `JobTask::run` and
--                `JobTask::perform_receive`, Orchestrator/Tree the part of `run_tree` that connects
--                the tasks by channels, with the jobs of src/job/dag.rs, and Orchestrator/Execution
--                the run of all tasks together and the end of `run_tree`
-- Job            src/job: jobs, their resources, and `RunnableJob::build_from_job` (runnable.rs);
--                Job/Dag is the graph of the jobs (dag.rs), and Job/Dag/Packages the way from a
--                package over its graph and the jobs to the run of their tasks
-- Endpoint       src/endpoint: Endpoint/Setup is `Endpoint::setup` and its checks, Endpoint/Container
--                `execute_script` and `finalize` (configured.rs), Endpoint/Scheduler the choice of a
--                free endpoint (scheduler.rs) and the handles that count its jobs (configured.rs),
--                Endpoint/JobHandle the run of a job, `JobHandle::run` (scheduler.rs)
-- Log            src/log: the items of a log and the verdict of a parsed log
-- Db             src/db/find_artifacts.rs: `environments_equal` and `FindArtifacts::run`
-- Commands       src/commands/build.rs: the choice of the package, the check of the images, and the
--                report of a failed job
-- Config         src/config/not_validated.rs: `validate` and `check_compatibility`
--
-- How state is modelled. `add_sub_packages` changes a graph and a map from packages to nodes: the
-- model passes both on in a `State`, and an error ends the chain. The order in which a `HashMap`
-- is iterated over is a parameter (`HashOrder`), and so are petgraph (`AcyclicGraph`: it appends
-- nodes and edges and refuses an edge that closes a cycle) and the parsers of regex and pom
-- (`DependencySyntax`). The tree of `pkg.toml` files is loaded from a list of the files that the
-- walk over the directory finds, with what reading each of them returns. The jobs of a graph get
-- UUIDs that are drawn (`new_v4`), and what petgraph says of the neighbors and the order of the
-- nodes is a hypothesis (`JobGraph`). A task is a function from the messages that come in before
-- its channel is closed to the messages that it sends; the database, the stores, the construction
-- of a runnable job and the scheduler are fields of `Services`. The tasks together run by an
-- `IsExecution`: the messages of each channel are those that the tasks send to it. Log output and
-- progress bars are left out.
--
-- Fuel. `add_sub_packages` calls itself for each package that it adds to the map. The
-- recursion gets as much fuel as the repository has packages, and one (`enough_fuel`); as every
-- call adds a package of the repository that the map does not have yet, that is always enough.
--
-- The endpoints are a heap of records, and an `Arc` is an address in it; a run of the scheduler is
-- a sequence of steps that make a handle for a selected endpoint or drop one. Counters wrap at
-- 2 ^ 64. Floating point numbers are a parameter (`Floats`). Docker, the database and the file
-- system are fields of the records `Docker`, `Backend`, `ScriptRun`, `Finishing` and
-- `FindArtifacts`; a run that ends with an error does not return its state.
--
-- Not modelled: the other commands and the command line, the models of the database, the
-- copies of files into containers, the statistics of endpoints, the log's grammar and its display,
-- the making of build scripts and their linting, the sources and their download. They are input
-- and output, calls of other libraries, or text.
pub mod Prelude
pub mod Package
pub mod Repository
pub mod Filestore
pub mod Images
pub mod Orchestrator
pub mod Log
pub mod Endpoint
pub mod Config
pub mod Job
pub mod Db
pub mod Commands
