-- ===== src/Lib.antt =====
-- The civo-csi driver: the Container Storage Interface for volumes of the Civo API, which Kubernetes
-- calls to create, attach, mount, grow and delete volumes.
--
-- The parts. The controller service asks the Civo API for volumes, and the node service formats and
-- mounts the disks that the API attaches, through a disk plugger. They share the struct `Driver`,
-- which holds the API's client, the disk plugger and the settings, and no state between calls but
-- the group that merges concurrent calls of CreateVolume. The pre-stop hook runs by itself on a node
-- that goes, and waits until Kubernetes has no volume attachment of the node.
--
--   Action                   errors as values: an outcome is a value, an error, or a panic
--   Api, Api/Types           the client interface `civogo.Clienter`, a parameter of the model
--   Api/Recorded             a client that keeps the calls made through it, for statements on them
--   Host                     the standard library as it is called: sleep, files, environment
--   Csi                      the requests and responses
--   Driver, Driver/New, Driver/Testing, Driver/Serve
--                            pkg/driver/driver.go: `Driver`, `NewDriver`, `NewTestDriver`, `Run`
--   Command                  main.go, after the flags are parsed
--   Disk, Disk/Real, Disk/Fake, Disk/Commands
--                            pkg/driver/hotplug_disk.go: the interface, its two implementations,
--                            and the commands that the real one runs
--   Disk/Contract, Disk/Real/Manual, Disk/Real/Contract
--                            what the node service takes of a disk plugger, what the real one takes
--                            of the system, and how the one gives the other
--   Controller/Create, Controller/Size, Controller/Wait, Controller/Delete, Controller/Publish,
--   Controller/Unpublish, Controller/Expand, Controller/Query
--                            pkg/driver/controller_server.go: `CreateVolume` and what it calls,
--                            sizes, `waitForVolumeStatus`, `DeleteVolume`,
--                            `ControllerPublishVolume`, `ControllerUnpublishVolume`,
--                            `ControllerExpandVolume`, and the calls that only read
--   Controller/Places        sequences of publishing and unpublishing against the node and the
--                            status of each volume
--   Controller/Delete/Frees  DeleteVolume against the names of the volumes
--   Controller/Wait/Ends     all the ways in which the polling loop ends
--   Node/Stage, Node/Publish, Node/Info
--                            pkg/driver/node_server.go: `NodeStageVolume`, `NodeUnstageVolume`,
--                            `NodePublishVolume`, `NodeUnpublishVolume`, and the other node calls
--   Node/Mounts              the abstract view of the node service: how often each path is mounted,
--                            and what each call changes of that
--   Node/Real, Node/Blind    the node service with the real disk plugger, and with one whose errors
--                            are not seen
--   Identity                 pkg/driver/identity_server.go
--   Hook                     pkg/driver/hook/hook.go and options.go: `NewHook` and its options
--   Hook/PreStop, Hook/Wait  pkg/driver/hook/prestop.go: the functions, and the loop that waits with
--                            the informer beside it, as steps
--   Base                     shared names: integers, lists, texts
--   Tests                    an API in memory, runs, and the theorems at concrete data
--
-- A handler is a function with the name of the Go method in snake case, into `Action W A`: from a
-- world of any type W it gives an outcome and the next world. A long method is cut into functions
-- at its branches; each says which part it is. Requests are records of the fields that are read,
-- and a nil message or slice is `none`. Go's `int` and `int64` are integers with the wrap-around of
-- 64 bits written out (Base/Int64). A value that Go returns beside a non-nil error is dropped, as
-- gRPC drops it. A nil pointer that is read is the outcome `panic`. Errors keep their code, their
-- format and its arguments. Log calls are left out.
--
-- Code outside the repository is a parameter: civogo's client, `singleflight.Group`, the
-- standard library, the commands and system calls of the disk plugger, and the Kubernetes
-- client. Where a theorem needs what they do, a record states it. For the API: `HoldsNames`
-- (nobody else creates or deletes volumes: the API keeps names), `DeletesNames` (a deletion is
-- carried out, and names and ids are unique), `KeepsPlaces` (nobody else attaches or detaches
-- volumes), `TellsMissing` (an error that says that a volume is not there is true) and
-- `KeepsSizes` (nobody else resizes them). For the group: `RunsAlone` (no other call of the name
-- is in flight) and `Joins` (one is). For a node: `FindmntRuns` (findmnt can be started and is
-- not killed), `KeepsMountTable` (the commands do to the mounts what their manuals say),
-- `IsConsistent` (the counts of a filesystem make sense), and `Works` (nothing fails).
-- `KeepsMounts` is the interface between the node service and the disk plugger: the node's
-- theorems take it for the mount flags that the disk plugger allows, and the real one fills it
-- for the flags that qualify a new mount.
--
-- The polling loop recurses on the rounds left, 20 when a volume is created and 40 when it is
-- resized, as in the code; so no fuel is added to it. The hook's wait is a relation: its steps are
-- events of the informer, ticks, the end of the context, and moves of the rest of the world.
--
-- Not modelled: the gRPC server and the goroutine that waits for a signal, which are one parameter
-- that serves until the context ends; the parsing of flags and the set-up of logging in main.go; the
-- manifests under deploy; and the tests under e2e.
pub mod Base
pub mod Action
pub mod Api
pub mod Host
pub mod Csi
pub mod Disk
pub mod Driver
pub mod Controller
pub mod Node
pub mod Hook
pub mod Identity
pub mod Command
mod Tests
