-- ===== src/Lib.antt =====
-- d2p-migrator: it takes a host's docker containers over to pouch. The development models the
-- migration itself (migrator, pouch, ctrd, docker, utils and main.go) and proves what each phase asks
-- of the outside and leaves in the migrator's state.
--
-- The parts, and the files that model them:
--
-- - main.go (`main`, `runCmd`): Command.antt. It makes a `D2pMigrator` and runs its phases, `PreMigrate`,
--   `Migrate` and, where that fails, `RevertMigration`, and `PostMigrate`, or only `PrepareImages`.
--   Command/Phases.antt states the phases as a plan, Command/Success.antt says when
--   the command succeeds, and Command/Calm.antt is about a run that only prepares.
-- - migrator/migrator.go and migrator/interface.go: Migrator/D2p.antt and Migrator/D2p/Images.antt.
--   A `D2pMigrator` checks docker, starts a containerd of its own, and passes each phase on to the
--   migrator that is registered for the type, cold or live. Migrator/D2p/Start.antt is about its
--   construction.
-- - migrator/cold_migrate.go: Migrator/Cold.antt (the state `coldMigrator`, `doPrepare`), with
--   Migrator/Cold/PreMigrate.antt, Migrator/Cold/Migrate.antt (also `RevertMigration`) and
--   Migrator/Cold/PostMigrate.antt for its phases, Migrator/Snapshot.antt for the snapshot of a
--   container and Migrator/Removal.antt for what `PostMigrate` shares with the live migration. The
--   laws are in the modules below these, in Migrator/Cold/Order.antt and Migrator/Cold/Lost.antt, and,
--   for what a preparation leaves alone, in Migrator/Quiet.antt and the modules below it, with a
--   Quiet.antt below Migrator/D2p, Migrator/Live and Ctrd/Manifest.
-- - migrator/live_migrate.go: Migrator/Live.antt, with its laws below it. hookplugins: Hookplugins.antt, the plugin that the
--   live migration calls and that `NewD2pMigrator` loads.
-- - migrator/migrator_utils.go: Migrator/Disk.antt, and Migrator/Quota.antt for `SetDirDiskQuota`.
-- - migrator/volume_migrate.go: Migrator/Volumes.antt. migrator/cri_migrate.go:
--   Migrator/Sandboxes.antt.
-- - pouch/convertor/core.go: Convertor/Container.antt (`ToPouchContainerMeta`), Convertor/Config.antt,
--   Convertor/HostConfig.antt and Convertor/Network.antt. pouch/convertor/cri.go:
--   Convertor/SandboxName.antt and Convertor/Sandbox.antt. pouch/convertor/volumes.go:
--   Convertor/Volumes.antt.
-- - pouch/types/types.go, and the records of pouch's API that the code fills: Pouch/Types.antt and
--   Pouch/Stores.antt. pouch/utils.go and pouch/pouch.go: Pouch/Service.antt.
-- - docker/docker.go: Docker/Client.antt. docker/utils.go: Docker/Service.antt. The records of
--   docker's API that the code reads: Docker/Types.antt.
-- - ctrd/containerd.go: Ctrd/Client.antt and Ctrd/Process.antt.
-- - ctrd/image/image.go: Ctrd/Reference.antt (`AddDefaultRegistryIfMissing`) and Ctrd/Manifest.antt
--   (`PullManifest`, which `PullImage` calls where only manifests are pulled), with its laws below it.
-- - ctrd/image/converter.go, the handler of `PullManifest` for a manifest of schema 1: Ctrd/Types.antt
--   (the state `Converter`), Ctrd/Converter.antt (the history), Ctrd/Converter/Handle.antt,
--   Ctrd/Converter/Convert.antt and Ctrd/Converter/Convert/Image.antt, with the signature and its
--   base 64 in Ctrd/Jose.antt and the modules below it.
-- - ctrd/image_proxy_util.go: Ctrd/Proxy.antt. runCmd sets the proxy and the credential.
-- - utils: Utils.antt and Utils/Files.antt.
--
-- How code is modelled. Text is a list of code points (`Str`), an integer of Go is ℤ or ℕ, a map is an
-- association list (`Dict`) in which a key is updated in place, and a pointer that may be nil is an
-- `Option`. A function that may fail returns a `Result`: a value, an error with its class and text, or
-- `panic` where Go dereferences nil or indexes out of range. A slice of pointers has `Option`s as its
-- items. What the program asks of docker, pouch,
-- containerd, the file system and other processes is a `Request` (World/Requests.antt). A `Host` holds
-- the answers, each a function of the trace of all requests so far, so that an answer may depend on
-- everything that was asked before, and no theorem assumes how a host behaves unless it says so. Code
-- that calls the world is an `Io` (World/Monad.antt), which maps the trace to a result and a longer
-- trace; a method that changes its migrator is an `Exec` (World/Exec.antt), which also passes the
-- state on, and keeps it where the method fails. Log output is left out.
--
-- Loops run over lists and are structural. `StopDockerService` makes three attempts, as in the source.
-- `waitPouchAlive` runs against a clock in the source, in two goroutines; here the host says how many dials
-- return before the time is over (`dial_rounds`), which may be any number. What the dialling goroutine
-- does later is left out.
--
-- Not modelled: the conversion of times and of records to and from JSON, the digest of a text, the
-- parse of URLs and of IP addresses, and the walk over an image's descriptors (containerd's
-- `images.Dispatch`), which are functions of the host or of a `Net`; the logger's set-up; and the
-- libraries under vendor.
pub mod Prelude
pub mod Utils
pub mod Docker
pub mod Hookplugins
pub mod Pouch
pub mod World
pub mod Convertor
pub mod Ctrd
pub mod Migrator
pub mod Command
mod Tests
