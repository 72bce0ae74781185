-- ===== src/Lib.antt =====
-- origofs: a versioned, attributed file system for people and agents. The files here model parts of
-- its core crate and prove what makes them correct.
--
-- The parts, in the order in which they build on each other:
--
-- Base: numbers, lists, results, byte strings and UTF-8, shared by the other modules. A Rust string
--   is the list of its UTF-8 bytes; `Result` and `?` are a data type and its bind.
-- Errors (crates/origofs-core/src/error.rs): the error variants without their messages.
-- PosixLock (posixlock.rs): `resolve` answers a lock request against the rows of one file with a
--   conflict or an edit, `apply` makes the edit, `check_state`, `held_at` and `test` read the table.
--   `Grow`, `Rows`, `Sorting`, `Edits`, `Widened`, `Remainders`, `Grant`, `Granted` and `Held` are
--   the steps of the proofs, `Conflict` and `Semantics` the results. `setlk` is `resolve` and then `apply`, as the stores
--   compose them, and `run` is a sequence of requests.
-- Format (format.rs): the header of each structured object, and the store's descriptor.
-- ObjectGraph (objectgraph.rs): `Tree`, `Commit` and `RefSnapshot` with their `encode` and `decode`.
--   One round of each decoding loop is a function (`decode_entry`, `decode_parents`, `decode_ref`).
-- Chunk (chunk.rs): the `Manifest` that lists the chunks of a file's body.
-- Paths: the string methods that scopes and grants use on paths (`split`, `trim`, `strip_prefix`,
--   `rfind`), on bytes.
-- Scope (scope.rs): a surface's view of one subtree. `placed` is the end of `resolve`.
-- Acl (acl.rs): permission sets, the grants of an actor by prefix, the cache of them, and the
--   operations that check and change them. `AclStore` holds the rows that an answer of one workspace
--   depends on, and a call takes and returns the cache. `History` runs one worker's checks between
--   changes by any; a policy set in another workspace is the event `policy_set_elsewhere`.
--   Grants use `Scope.at` to read a prefix, and `Longest` relates their matching to `Scope.contains`.
-- Attribution (attribution.rs): the runs of a `BlameMap`, and `diff_spans`, which derives the map of
--   a new text. The diff of the `similar` crate is an argument, and a panic is `none`.
-- Merge (merge.rs, and is_internal_path of engine.rs): `merge_name` is the body of the loop of
--   `merge_trees`, and `merge_file` the merge of one file. The content store, the `diff3` of the diffy
--   crate and the merge of two subtrees are arguments.
-- Pack (pack.rs): the entries of the pack index, and the trailer that lists a pack's chunks.
-- Body (engine.rs): the body of a file as the chunks of a manifest: `read_range`, `store_body`, and in
--   `Body.Edits` `splice_body`, `resize_body`, `split_chunks_at`, `slice_chunks` and `replace_range`.
--   `BodyCalls` holds the operations of the content store, on a state of any type, and the cut of the
--   fastcdc crate; `Works` says what is documented of them, and `Sample` has a store that fulfils it.
--   `Reads` relates chunks to the bytes that they stand for, `Saves` is the contract of an operation
--   that stores a body, and each other child has one operation's proof. A failed allocation has no part.
-- Vfs (vfs.rs, check_quota of stats.rs, set_content_if of sqlite.rs): reading, writing, truncating and
--   allocating one inode. A change is an attempt in a loop with compare-and-set; `meanwhile`
--   and `others` are what everybody else does between the reads of an attempt, those of the quota's
--   check and the transaction. `Fair` is what the theorems ask of the others: they delete no object of
--   the content store, as a collection does to objects that no root reaches, and leave loadable files. `Applied` is the abstract
--   view: one change of one file's bytes at one moment. `Vfs` builds on `Body` through `Saves`.
-- Gc (gc.rs, with delete_if_older_than of content.rs and trash_content_hashes of sqlite.rs): the lease,
--   the mark phase over all roots, and the sweep. `Marks`, `Walk` and `Roots` show what is marked,
--   `Fuel` and `Finish` that marking ends, `Sweep` what is deleted, `Clash` what is missed where one
--   object is used in two roles.
-- Suggest (suggest.rs, with resolve_suggestion of sqlite.rs): the review queue. `ReviewCalls` holds what
--   an acceptance calls to land an edit, and `others`, what everybody else does between the landing and
--   the compare-and-set on the row. `Rows` is about one row, `Gates` about what an acceptance asks for,
--   `Kept` and `Review` about the invariant of the queue.
-- Retry (retry.rs): the loop of `retrying`, over an operation that answers each attempt by number.
--
-- Bounds: a machine integer is a natural number, with its wrap written out where the code can wrap
-- (the casts of `RefSnapshot::encode`, the `wrapping_add` of the access-control generation, the
-- saturating sum of `capacity_hint`). Lock offsets are the 63 bits of a non-negative `i64`; requests
-- below zero, which the callers refuse, are not modelled. `grow` runs on fuel, one round more than the
-- owner has rows: a round that goes on brings at least one row inside the range for good. `ancestors`
-- runs on one round more than the path has bytes, since each round shortens it. The mark
-- phase runs on one unit more than the store has objects: each step down marks one that was not
-- marked. The compare-and-set loops have the code's 16 attempts. The other loops are structural
-- recursions over the list or the count that the code walks.
--
-- Not modelled: input and output and the SQL stores, but for the statements on the access-control
-- table, the review queue and one inode's content;
-- failures of the metadata store inside a checked operation; the co-editing documents of the yrs
-- crate; ciphers and object stores; the walk of a merge over the stored trees, the packed store, the
-- namespace operations (create, rename, link, trash), the proposing of suggestions and the log; and the
-- surfaces, the command line and the Python binding. They are input and output, third-party code or glue, or the parts above do not need them.
pub mod Base
pub mod Errors
pub mod PosixLock
pub mod Format
pub mod ObjectGraph
pub mod Chunk
pub mod Paths
pub mod Scope
pub mod Acl
pub mod Attribution
pub mod Merge
pub mod Retry
pub mod Pack
pub mod Body
pub mod Vfs
pub mod Gc
pub mod Suggest
