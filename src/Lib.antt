-- ===== src/Lib.antt =====
-- KerPlace, an S3-compatible object store.
--
-- The library models the parts of the program that decide who may do what and that keep objects
-- together: a request passes the middleware of src/auth/mod.rs, which asks the identity store of
-- src/iam.rs for the secret of an access key, checks the signature, the policy and the bucket scope,
-- takes the chunk framing off the body, calls a handler and writes the access log. A handler calls
-- the erasure-coded store of src/erasure/store.rs, whose drives may be remote nodes that grant locks
-- with fencing tokens. The lifecycle worker deletes expired objects through the same store.
--
-- Files:
--   Base          lists, text, dictionaries, integers and Boolean tests that the parts share
--   Error         src/error.rs: S3 errors and their XML response
--   Storage       src/storage/mod.rs: data of the store's interface, names and keys
--   Http          method, path, query and headers of a request
--   Iam           src/iam.rs: policies, users (Iam/Store), temporary credentials (Iam/Sts)
--   Audit, AccessLog  src/audit.rs and src/access_log.rs: the record of a request
--   Auth          src/auth/mod.rs: the middleware; beside it src/auth/sigv4.rs (Auth/Credentials,
--                 Auth/SigV4) and src/auth/chunked.rs (Auth/Chunked)
--   Cluster       src/cluster/lock.rs: the lock table of a drive node, the quorum lock over the
--                 nodes (Cluster/Quorum, Cluster/Holding) and its retries (Cluster/Waiting);
--                 src/cluster/server.rs: the requests to a drive node (Cluster/Server)
--   Handlers      src/handlers: the requests on objects (Handlers/Objects), their locks
--                 (Handlers/Locked), uploads in parts (Handlers/Multipart), buckets (Handlers/Buckets)
--                 and their settings (Handlers/Settings), batch deletion and forms (Handlers/Batch)
--   Config        src/config.rs: the configuration; src/main.rs: the start (Config/Startup)
--   Calls         calls that change a state and may fail, and their order
--   Erasure       src/erasure/store.rs: histories and versions on every drive, listings, and the
--                 shards of an object (Erasure/Sharded); src/erasure/codec.rs (Erasure/Codec)
--   Crypto        src/crypto/mod.rs: the container of an encrypted object (Crypto/Sealing), and
--                 src/crypto/provider.rs: keys under a file or a passphrase (Crypto/Keys,
--                 Crypto/Custody)
--   Fs            src/storage/fs.rs: the places of files (Fs/Tree), core I/O (Fs/Files), version
--                 history (Fs/Versions), the operations on an object (Fs/Store) and on a version
--                 of it (Fs/OneVersion), ranges of plain and encrypted objects (Fs/Reads),
--                 uploads in parts (Fs/Multipart), buckets and their settings (Fs/Settings)
--   Ranges        the byte ranges of src/handlers/object.rs and src/erasure/store.rs
--   Lifecycle     src/lifecycle.rs: the worker, over a store that is a parameter
--   Tests         examples
--
-- A function or method has its name in the source. State is passed explicitly: an operation takes
-- the state and returns it, with `Result` for its error. Text is the list of its Unicode scalar
-- values. Cryptography, base64, percent coding, JSON, XML and dates are third-party code: they are
-- fields of the records StsCrypto, UsersCodec, SigLib, Parsers, Aead, Kem, Digests and ReedSolomon,
-- with the laws that are relied on. So are the calls of tokio::fs and serde_json that the
-- file-system store makes, in FileSystem, Json, Uploads and Documents of Fs, the calls of a drive
-- (DriveCalls), and what the handlers take from axum and the XML code (Web, FormParser). The
-- handlers and the worker call a store that is a parameter (an ObjectStore each); a header is taken
-- to be sent once, and what the XML documents say is data. A path of FileSystem is its
-- components, `..` among them: where it leads is the file system's, which has no symbolic links.
-- The clock, random numbers, and what the disk does are arguments.
--
-- Fuel: the loop of the chunk decoder takes the body's length and one more, which is enough, since
-- each turn reads a header line, and so do the loops over the chunks of a container and the blocks
-- of an object, since each turn but the last reads a byte; the worker's loop over pages takes a
-- number of pages, and what is said of it holds for every number. All other loops are recursion on a
-- list.
--
-- Not modelled: the admin and STS requests and the router, healing and multipart uploads of the
-- erasure store, copies and listings of the file-system store, the key files and the KMS, the mutexes
-- of one gateway, the client of a drive node, the command line, OIDC, the console and TLS. Tasks, pipes
-- and sockets are left out.
pub mod AccessLog
pub mod Audit
pub mod Auth
pub mod Base
pub mod Calls
pub mod Cluster
pub mod Config
pub mod Crypto
pub mod Erasure
pub mod Error
pub mod Fs
pub mod Handlers
pub mod Http
pub mod Iam
pub mod Lifecycle
pub mod Ranges
pub mod Storage
pub mod Tests
