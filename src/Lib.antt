-- ===== src/Lib.antt =====
-- ti-cli: the FUSE mount of a remote file system, the paths that it and the packs of local files
-- use, the telemetry backend, the checks of the database commands, the names of environment
-- variables, and the update of the program's own binary.
--
-- The kernel calls the mount on a path (Nodes): a path belongs to the local overlay, to a git
-- workspace, or to the remote file system, in this order (Paths.Remote), and modes and symbolic
-- links that the service does not keep are recorded on the side (Metadata). The files that are
-- open are in a registry (Handles), so that a rename or a removal reaches them, and an open sees
-- what another handle has not flushed yet. A program writes to a file of the mount; the open file
-- (File) keeps its bytes and the ranges that it made dirty (Ranges). A flush hands both to the
-- runtime (Runtime), which uploads them (Upload): it checks that the remote object still has the
-- version that the file was opened with (Version), patches the parts that the dirty ranges touch
-- if the size is the same, and else, or if the service cannot patch, writes the whole file. With
-- a write-back store (WriteBack) the write is on the local disk until it is uploaded, and a later
-- mount uploads what was left there. The result goes to the read cache (Cache), which reads go
-- through. Errors are classified on the way and end as an errno (Errors). The telemetry backend
-- takes batches of events into a bounded queue, which one goroutine flushes to its sinks
-- (Telemetry.Batcher).
--
-- Fuse/Ranges models mergeFuseDirtyRanges and fuseDirtyParts of internal/fs/fuse_mount.go;
-- Ranges/Cover, Separate and Parts are about them. Fuse/Version is internal/fs/fuse_version.go.
-- Fuse/Cache is internal/fs/fuse_cache.go, one function per method; Cache/Invariant, Recency,
-- Lookup, Limits and History are about it. Fuse/Errors has mapWebDAVError, isAPINotFound,
-- fuseErrno, shouldFallbackStat and shouldFallbackFusePatch. Fuse/Upload has upload, patchUpload,
-- checkWriteBase, statFuseRemoteVersion, shouldPatchFuseWrite and CalcAdaptivePartSize of
-- internal/api/fs/upload.go. Upload/Patch, Stores and Guard are about it. Fuse/WriteBack is
-- internal/fs/fuse_writeback.go. Fuse/Runtime has readFile, writeFileWithDirty and
-- recoverPending. Fuse/File has the methods of remoteFuseFile. Fuse/Metadata is
-- internal/fs/metastore.go; Metadata/Trees, Edits and Moves are about it. Fuse/Handles has the
-- registry of open handles, and Handles/Newest is about what another open sees. Fuse/Nodes has
-- the methods of remoteFuseNode that change state: Unlink and Rmdir, and in Nodes/Renaming,
-- Opening, Attributes, Creation and Linking the others; Nodes/Listing has Lookup, Readdir and
-- Readlink, and its children are about them; Nodes/Calls runs any of them in turn with the calls
-- on open files, and Nodes/Follows, ReadOnly and Sees are about them. Paths/Clean is what the
-- program uses of Go's path and strings packages, Paths/Archive the paths of packs in
-- internal/fs/pack.go, and Paths/Remote normalizeRemotePath of internal/fs/data.go, toRemotePath
-- and remoteToLocalPath of internal/fs/pack.go, and childPath, isLocalOnly and their like of
-- internal/fs/fuse_mount.go. Update/Version is compareVersions and its callers in
-- internal/update/update.go, and Update/Install has replaceBinary and replaceFile of the same
-- file. Transfer/Parts has calcParts, computePartChecksums and the parallelism of an upload in
-- internal/api/fs/upload.go. Telemetry/Batcher is internal/telemetrybackend/batcher.go: the
-- methods, and in Batcher/Lifecycle the flush loop as a step relation among the calls of other
-- goroutines, which may come between a batch's being taken and its being counted, and between an
-- Enqueue's lock and its signal. Telemetry/Event is the validation in
-- internal/telemetrybackend/event.go, with the standard library's JSON and time parsers as
-- parameters; Event/Shapes says what its patterns stand for. Settings/Env is
-- internal/config/envcompat/envcompat.go. Db/Statement is internal/db/sqlsingle/sqlsingle.go,
-- Db/Validate internal/db/validate/validate.go, Db/Paging internal/db/pagination.go, and
-- Db/Dotenv dotenvValue of internal/db/connectionstring/connectionstring.go. Common holds
-- numbers, texts, lists and results.
--
-- The requests of the data-plane client and the service behind them are the interface
-- Fuse/DataPlane, whose laws say what a write and a patch that succeed have stored; Tests/Service
-- has an implementation in memory. The requests that only the calls on paths make, the local disk
-- and the git layer are the interface Fuse/Nodes.Surroundings, with an instance in Tests/Around.
-- The sinks of the batcher are given by their outcomes, and the size of an event is a parameter.
--
-- Bytes and code points are natural numbers, times are nanoseconds; a text is the code points of
-- valid UTF-8, and its bytes are written out where the program takes them. Where an int64 can
-- leave its range the wrap-around is written out (File.wrap); other sizes are bounded by memory.
-- The loop of the cache that makes room has the length of its list as fuel, since each round
-- removes an element; the loop of flushAll and the inner loop after a wake have a number of
-- rounds, and the length of the queue is enough, while nothing is enqueued.
--
-- The local disk of the write-back store is the pair of files for each path, and a predicate says
-- which of its operations fail; so it is with the disk of an update.
--
-- The file of the metadata store is read and written in one step that succeeds or fails, and its
-- entries are a list in the order in which Go's range over the map meets them. A walk over all
-- open handles is one step. Paths are those of Unix, where path/filepath and path agree.
--
-- Not modelled: what the git layer does inside, the WebDAV mount, mount processes, the archives
-- of packs and the audit of links on the disk, the other file system commands, the HTTP and SQL
-- layers, profiles and regions, the download of a new binary, the operation log and the command
-- line. A step of the mount is one call; what its locks keep apart is not looked into. In the
-- batcher what a call does with the lock and what it does after it are steps of their own.
mod Common
pub mod Db
mod Paths
pub mod Fuse
pub mod Settings
pub mod Telemetry
pub mod Transfer
pub mod Update
