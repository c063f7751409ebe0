-- ===== src/Lib.antt =====
-- aeroflare keeps a Nix binary cache in an OCI registry. A push prepares store paths (it writes a
-- NAR archive and a narinfo file for each path and for each reference that no upstream cache
-- holds), uploads the archives as layers, and publishes a manifest for every path whose whole
-- closure was uploaded.
--
-- The parts and their files:
-- - Base: tests, lists, texts, association lists, sorting and results with errors. A Go string is
--   a list of bytes (Text); a map is an association list (Dict) of which the program reads only
--   what a key is bound to.
-- - Decimal: strconv's FormatInt and ParseInt on int64, in base 10.
-- - Narinfo: pkg/prepare/narinfo/narinfo.go. `Narinfo.String` is to_string, `Parse` is parse, and
--   bufio.Scanner with its limit of 64 KiB is scan_lines. Unicode white space in references is not
--   modelled, only that of ASCII.
-- - Prepare: pkg/prepare/prepare/prepare.go. Tree has the results, Refs the levels of
--   `prepareRefsRecursive`, Batch has `Prepare` and `PrepareBatch`. The commands of Nix, the query of
--   the upstream caches and the writing of files are the fields of a record, Env. A pool of workers
--   is a pass over its list, since every answer is put at the index of its job; of several errors
--   the source returns the one that arrives first, and the model the one that stands first.
--   Store is pkg/prepare/store/store.go, with the commands of Nix as the record NixCommands.
--   Write is `writeNarAndNarinfo`, which makes the two files of a store path; its Files are the
--   dump of a path, the compression libraries, crypto/sha256 and the file system.
--   The recursion takes fuel, one unit for a level: each level visits a new path, so more fuel than
--   the store has unvisited paths is enough.
-- - Upstream: pkg/prepare/cache. Calls has the calls of `Cache.Exists` as a system of steps, one for
--   what a call does under the lock, which are interleaved in any order; Group is `ExistsBatch`.
-- - Push: pkg/push. Tasks is `flattenTasks`, Complete is `completeReceipts`, Upload is
--   `uploadTaskSet`, Prepared is `Prepare` and `PushTo`, Run is `RunPushTo` and Args `ParseConfig`.
--   Files and the registry are the records Host and Target. The uploads of a set run at the same
--   time, and each takes a lock to write its answer: a run is the list of the tasks in the order in
--   which they take it, and the theorems hold for every such order. The chunks are cut on fuel, as
--   much as there are paths, and each takes a path at least.
-- - Compress: the names of the compression types of pkg/prepare/compress.
-- - Signing: pkg/prepare/signing/signing.go. Verified is about signatures, Parsed about the texts of
--   keys. crypto/ed25519 and encoding/base64 are the record Suite, and IsSound says what is relied
--   on of them. An error is one of KeyError. `filepath.Dir` is that of a path that is clean.
-- - Ci: internal/ci. Outputs is discover.go, Changed is changed.go, Settings is cachespec.go and
--   config.go, Builds is build.go and filter.go, Run is run.go, SigningKey is signing.go. What git,
--   nix and the environment answer is a parameter. An error stands for its message, where nothing
--   reads the text.
-- - Secrets: internal/secrets/manager.go. `Set`, `Get`, `Delete` and `List` are set_secret, get_secret,
--   delete_secret and list_secrets. The keychain, the file system and encoding/json are the record
--   Host; what is relied on of them is IsReliable in Secrets/Stored, and for deletions IsRemoving in
--   Secrets/Removed. The keychain is probed when the
--   manager is made and not at its first use. A file of the text `null` is read as an empty map.
-- - Hash: pkg/prepare/hash/hash.go, the base 32 of Nix. The index of the first character that is
--   decoded is the largest, so it is the one that can be out of range.
-- - Oci: pkg/oci, the image of a package: `NewLayerFast`, `PushNarPackageWith`,
--   `ParseAeroflareMetadata`, `PullOCINativeManifest`, `FetchAeroflareAnnotations` and
--   `PushConfigManifest`. The registry is the record Registry, and IsFaithful says what is relied on
--   of it.
-- - Auth: internal/auth. The catalog of services; Resolve has the resolver, Validate the checks of a
--   credential at its provider, whose requests are the record Api.
-- - Cmd: Config is pkg/cmdutil/config.go, which asks Auth and Secrets; Installable is
--   pkg/cmd/push/installable.go; Configure is `configureRun` of pkg/cmd/configure/configure.go;
--   Shared is pkg/cmd/auth/shared, without the prompts for Cloudflare.
-- - Backend: internal/backend. native_push_receipts is `PushReceipts` of NativeBackend; it publishes
--   the receipts at the same time, and the model in the order in which they reach the registry.
-- - Proxy: pkg/proxy/proxy_server.go. handler is `Handler`, and Handler has a function for each path.
--   A handler gives what is written to the response; the registry, the blobs and the upstream caches
--   are the record Server. Start is checks.go and bootstrap.go. A `panic(http.ErrAbortHandler)` is
--   the answer `aborted`.
-- - Tests: the inputs on which the theorems are applied.
--
-- Not modelled: the device flow of GitHub; the transports of the registry and Cloudflare's API; the
-- goroutines of the proxy; the compression of archives; the command line, the wizard and the
-- terminal; and the scripts.
mod Base
pub mod Decimal
pub mod Narinfo
pub mod Prepare
pub mod Auth
pub mod Backend
pub mod Compress
pub mod Ci
pub mod Cmd
pub mod Hash
pub mod Oci
pub mod Proxy
pub mod Signing
pub mod Secrets
pub mod Upstream
pub mod Push
pub mod Tests
