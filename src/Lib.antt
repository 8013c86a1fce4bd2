-- ===== src/Lib.antt =====
-- Starlight: a proxy that computes what a client lacks of a container image and sends it as one
-- delta bundle, and a client that unpacks the bundle into layers which it mounts while the rest is
-- still on the way.
--
-- Proxy models the proxy (proxy/). Proxy/Bundle is the data of the delta bundle
-- (util/send/image.go); Proxy/Database the queries of a delta and Proxy/Catalog the tables of
-- images and tags, both of proxy/database.go, on tables held as lists. Proxy/Database/Writing is
-- how layers and files come into them, and Proxy/Extractor how an image does (proxy/extractor.go),
-- whose layers are saved at the same time: a Schedule says in which order they are committed and
-- how old the tables are that each lookup saw. Proxy/Ranking is UpdateFileRanks of
-- proxy/database.go, which records the ranks of Client/Tracer.
--
-- Proxy/Builder is NewBuilder and getUnavailableLayers, and Proxy/Delta is computeDelta, one
-- function for each of its loops, both of proxy/builder.go. Builder/Laws and the modules below
-- Delta prove what they do, one module for a step and Delta/Resolved for the whole. Proxy/Body is
-- WriteBody of the same file, and Body/Slices says what it writes.
--
-- Client models the client. Client/Receive is the bundle as the client reads it
-- (util/receive/image.go); Client/Extract is Extract of client/manager.go; Extract/Unpack proves
-- what unpacking a whole payload does, and Extract/Transfer joins it to WriteBody.
-- Client/Receive/References says where the client looks for the bytes of a file.
--
-- Common/LayerCache is the cache of one layer, those who wait for it (util/common/cache.go) and its
-- eviction (proxy/server.go); a channel is its position, with what was sent on it and how often it
-- was closed. Common/Directory is the children of an entry of the table of contents
-- (util/common/toc.go). Client/Setup is Init, without the tree of files, and PrepareDirectories of
-- client/manager.go, which come before Extract. Client/Tracer is the traces of file accesses and
-- the groups that the proxy ranks files by (client/fs/tracer.go).
--
-- Client/Mounting is the layer map and the managers of the client (client/client.go), with the
-- operations in Loading (LoadImage and the tracer), Filesystems (Mount and Unmount) and Pulling
-- (what a pull does to the managers and layers); Serving says what the entries refer to, and Steps
-- is the relation of all the operations on one state. Client/Pull is PullImage and what the daemon
-- answers while it runs (client/client.go, client/grpc.go): its stages stand in order in Pull and
-- Stages/Whole, every answer from outside is a field of a record, and the channel on which it tells
-- the daemon of its progress is the list of what it sent. The other calls of the client are a
-- function: what they make of the client and the mutex before the deferred function of the pull
-- runs. Client/Snapshotter is the snapshotter (client/snapshotter/plugin.go): the walk over the
-- parents (Chain), the mounts of a snapshot (Mounts), which reach the client through the record
-- PluginClient that Service fills with the operations of Client/Mounting, and the transactions on
-- containerd's store (Transactions), which is the record MetaStore.
--
-- Common/LayerCache/Fetching is fetchLayers (proxy/builder.go) for requests that run at the same
-- time on one server: each step is what one of them does under one lock.
--
-- Examples holds the inputs at which the hypotheses of the theorems hold. Prelude has the shared
-- parts: tests, lists with pointers as positions, Go's maps as association lists, and the two
-- things that Go leaves open as parameters: the order in which a map is visited (MapOrder) and
-- sort.Sort, which need not be stable (Sorter).
--
-- An int64 that is a size, an offset, a rank or a serial number is a natural number; a sum of sizes
-- wraps at 2^64, and the theorems about sums say below which bound it does not. A float64 rank is
-- its bit pattern, which orders the ranks that are not negative. Most loops are structural
-- recursion. Two of the snapshotter run on fuel: getFsStack climbs from a snapshot to its parents,
-- and a round for each is enough when each snapshot was created after its parent; the loop of
-- mountLayer asks for a manager until a mount finds one, and two mounts are enough when the first
-- image of the list is loaded and has the layer; otherwise the loop of the source itself need not
-- end. Where the code would panic, the model returns an ending that says so. The database's average
-- of ranks, gzip and the answers of the operating system are parameters.
--
-- Not modelled: the seekable tar format of util/common/stargz.go, which is a modified copy of
-- containerd's stargz-snapshotter, and the table of contents that is read from it; the convertor of
-- images; the FUSE callbacks, the handlers of HTTP and gRPC with their headers, and the
-- configuration files, which hand over to the parts above or to libraries; errors of writing to a
-- file that was created, the removal of an unmounted directory, and a cache without a buffer in
-- WriteBody; the generated protocol code, the command line tools and logging.
pub mod Prelude
pub mod Proxy
pub mod Client
pub mod Common
pub mod Examples
