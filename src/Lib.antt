-- ===== src/Lib.antt =====
-- LabNETCONF: a lab server for NETCONF over SSH and RESTCONF over HTTP, with a running, a candidate
-- and a startup configuration for each device profile.
--
-- The parts that are modelled, and their files. Paths are from the repository's root.
--
--   Framing      internal/ncframing. `write10` and `write11` are Write1_0 and Write1_1, `Reader` and
--                `read_message` are Reader and ReadMessage, `read10` and `read11` the two decoders. A
--                connection is the bytes still to come and the error behind them. The loop of
--                `read11` has one more unit of fuel than the input has bytes, and each round reads one.
--   DomainErr    internal/domainerr: codes, the catalog and the errors.
--   Datastore    internal/datastore. `Handle` is the struct handle and each method a function on it;
--                the mutex makes a method one step. `Calls.step` is one call, `Calls.run` a sequence
--                of calls of any sessions. The tree of internal/yangtree enters as the record
--                `Yang.Tree` of its operations, whose laws say that a regular tree equals its clone;
--                `YangTree.AsTree.yang_tree` is that record of the code's own operations.
--                Commit hands its event to the sink after the mutex is free, so the order of the
--                events of two commits is not fixed by the handle.
--   YangTree     internal/yangtree. `Value` is value.go: a value and its equality, with a map as the list of
--                its entries; `Path` is path.go, `Schema` schema.go with `Schema.Build` for newSchema,
--                `Lists` the entries of lists and the merge, `Node`, `Reads` and `Diff` are node.go, `Edit`
--                is edit.go with a cursor as the value it stands at and the root with another one there.
--                The loops of the parser have one more unit of fuel than there are bytes left;
--                `diff_walk` has the sizes of both trees, which are more than their nesting; it is
--                none when it runs out. The floats, package
--                unicode, package regexp, fmt.Sprint and the uptime are parameters.
--   NcRpc        internal/ncrpc: requests and replies, `Encode` their documents as bytes and `Decode` the
--                messages from the tokens of a document. `children` is the loop that the decoders share,
--                with a round for each token and one more, and each round takes one. encoding/xml is
--                the records `Xml` and `XmlDecoder`.
--   NcServer     internal/ncserver. `dispatch` is one request of a session and `drop_locks` its end. The
--                XML conversions enter as the record `Codec`. The order of the requests of
--                many sessions is that of their calls of the handle.
--                `Loop` is session.go: `run` with its hellos and its loop, which has a turn for each
--                round of what the context, the connection and the other sessions do.
--                `Table` is the session table of Server, with ReplaceUsers as two steps.
--   Notif        internal/notif. `Ring` is the struct Ring, its critical sections are functions, and
--                `World.Step` interleaves them with the sends on the waiters' channels, the
--                receives and the timeouts. The handle's commit event reaches `on_commit`.
--   Auth         internal/auth. `Verifier.lookup_bearer` is lookupBearerLocked, `Identity.from_spec` and
--                the functions beside it are the rest of verifier.go and roles.go; SHA-256 digests are the
--                interface `Digests`, package strings and os.ReadFile the record `Identity.Library`.
--                `Sessions.Store` is the struct Store with its calls; a time is
--                a number of nanoseconds, and the random values are arguments of `create`.
--   Audit        internal/audit/ring.go. `Ring` is the struct Ring, over any type of event bodies.
--   App          internal/app/idempotency.go. `Idempotency.IdempCache` is the struct idempCache on a heap of
--                entries, each method a function on it; `evict_over` has a round for each entry, which is
--                enough, since a round drops one.
--
-- Components use one another by their modules; Base holds the shared notation, lists, dictionaries and
-- lemmas. The tests beside each component run the definitions and apply the theorems at inputs.
--
-- Not modelled: the parsing of XML, YAML and JSON, sockets, SSH and HTTP (libraries and I/O), the web client,
-- metrics output, and the command line; of the repository's own logic the application service
-- around its idempotency cache, the configuration document and its compiler, the capability catalog, and the HTTP and
-- SSH front ends. Nil receivers do not occur: methods are called on values.
pub mod Base
pub mod DomainErr
pub mod Framing
pub mod Datastore
pub mod NcRpc
pub mod NcServer
pub mod Notif
pub mod Auth
pub mod Audit
pub mod App
pub mod YangTree
