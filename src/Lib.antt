-- ===== src/Lib.antt =====
-- brubeck is a statsd server: samplers receive packets of messages, each message is parsed and
-- recorded into the metric of its key, and backends sample all metrics once in an interval and
-- send the values on. This library models its C sources, function by function.
--
-- Slab models src/slab.c, the allocator of the metrics: the chain of nodes is a list, an
-- address is the number of a node and an offset. Slab.Bounds has the invariant, Slab.Blocks
-- rows of allocations.
-- Histogram models src/histogram.c: the block of values is a list, sizes are numbers with the
-- wrap of their C types written out. Histogram.Percentile is the single precision arithmetic of
-- the ranks, Histogram.Rounding its bounds; Histogram.Push, Histogram.Reads and
-- Histogram.Sample are about recording and sampling; Histogram.Sorted states the contract of
-- qsort, and Histogram.InsertionSort meets it.
-- Backend models brubeck_backend_register_metric of src/backend.c: an access to what the
-- threads share is a step, and the order of the steps is a list of threads. Backend.Queue has
-- the invariant of the queue.
-- Bloom models src/bloom.c: the filters are lists of bytes, and Bloom.Check and Bloom.Filters
-- show them to be sets of bits.
-- Secure models src/samplers/statsd-secure.c: the text of a packet is a list of bytes, and the
-- second of the clock is an argument of every step. Secure.Judge and Secure.Replay are about
-- verify_token, Secure.Packet about a turn of the thread's loop, and Secure.Turns about many.
-- Carbon models the pickle side of src/backends/carbon.c with write_in_full of src/utils.h: the
-- buffer is the list of the bytes behind its first four, and what the socket answers is a list.
-- Carbon.Connection models the connection, Carbon.Plain the plain text lines. Carbon.Write is
-- about the write loop, Carbon.Pickle about the buffer.
-- City models src/city.c, with reads that fail outside of the key; City.Reads shows that none
-- does.
-- HashTable models src/ht.c over the operations of the concurrency kit's table and their laws;
-- HashTable.Assoc is a list that meets them.
-- Server models the state of src/server.h and the functions of src/metric.c that find and make
-- a metric: metrics are numbers in the store, the table and the queues of the backends.
-- Server.Init models brubeck_internal__init of src/internal_sampler.c. Server.Race is about two
-- threads that make a metric of one key. Server.Valid has the invariant, Server.Insert and
-- Server.Find the outcome of a look-up.
-- Packet models brubeck_statsd_packet_parse of src/samplers/statsd.c, which joins the parser,
-- the look-up and the recording. Packet.Lines compares its loop with the lines of the packet;
-- Packet.Handle and Packet.Count are about one message and the whole packet.
-- Receive models the receive loops of src/samplers/statsd.c over the answers of the kernel;
-- Receive.Many compares them, and Receive.Stale is about a buffer that is parsed twice.
-- Config models how src/server.c names a configuration and fills the arrays of backends and
-- samplers; Config.Name and Config.Slots are about these.
-- Loop models src/server.c from poll to the shutdown, over a list of what poll and the reads
-- gave; Loop.Stop is about its end and Loop.Expiry about the pass over the table.
-- Tick models a turn of backend__thread of src/backend.c over the functions of its backend, of
-- which Carbon.Connection fills the carbon ones; Tick.Reports is about what the backend is
-- given, and Tick.Silence joins it with the expiry.
-- Balancer models test-bin/balancer.c: Balancer.Address and Balancer.Table are about its
-- command line, Balancer.Forward about what it sends on.
-- EndToEnd joins the parser, the look-up, the recording and the sampling: EndToEnd.Recorded is
-- about the metric after a packet of well formed messages of one key, EndToEnd.Reported about
-- the report that follows.
-- Resolve models url_to_inaddr2 of src/utils.c over the list that getaddrinfo gives, and
-- Resolve.Head is about the address that it takes.
-- Search models find_substr of src/utils.c, and Search.First compares it with the first
-- occurrence.
-- Log models src/log.c; Log.Rotation is about the log as main opens it and signals open it
-- again.
-- Title models src/setproctitle.c and update_proctitle of src/server.c: Title.Text is about the
-- memory that is overwritten, Title.Bounds about the buffers.
-- SecureSend models build_packet of test-bin/statsd-secure-send.c, and SecureSend.Delivered
-- joins it with the sampler of src/samplers/statsd-secure.c.
-- Http models src/http.c: a request is its method and its URL; Http.Requests and Http.Answers
-- are about what it shows and changes.
-- Printing models brubeck_itoa of src/utils.c, for ten turns of its loop, which are the digits
-- of 32 bits; Printing.Digits is about what it writes. Printing.Float models brubeck_ftoa on
-- the bits of a float; Printing.Float.Places and Printing.Float.Cut are about its text.
-- Stats models the counters of struct brubeck_internal_stats in src/server.h and the sampling
-- pass of src/internal_sampler.c.
-- Metric models src/metric.h and the record functions of src/metric.c, Metric.Sampling the
-- sample functions; the union of a metric is a data type, and what a sample function hands to
-- the callback of its backend is a list of keys and values. Metric.Record and Metric.Means are
-- about a period of recordings, Metric.Periods about recorders and a sampler of one metric in
-- any order.
-- Statsd models the parser of src/samplers/statsd.c: Statsd.Number is parse_float,
-- Statsd.Message is brubeck_statsd_msg_parse. The text is the list of bytes from the cursor to
-- the end of the message, where the parser writes a zero byte, so that a read at the end of the
-- list gives zero.
-- Value is the interface to double: the development is over any type with these operations, and
-- a theorem names the laws of the order that it needs. Value.Whole shows that they can be met.
--
-- In the parts about several threads an atomic access is one step; everything else is the run
-- of one thread, with no other in between. A fault (a null pointer, a member of the union that
-- is not there, a read outside of what was written) is none of an Option, and the theorems show
-- where it cannot happen. The recursions are structural, so that no fuel is needed; the write
-- loop recurses over the answers of the socket, and its none is a wait for one more; the loop
-- over a packet has a turn for each byte and one more; the rounding of Histogram.Percentile
-- takes 17 steps, which reach past the largest product of a rank and a 16 bit size.
--
-- Parameters, since they are not under the repository: the double arithmetic, pow and strtod of
-- the C library, qsort, the logarithm behind the size of a replay filter, the HMAC of OpenSSL,
-- the table of the concurrency kit, for which pages the JSON library gives a text, what poll,
-- the sockets and the files answer, and the clock. Not modelled: the threads together, beyond
-- the queues, the counters, one metric and two makers of one; the flow of a debugging build;
-- the sockets, initproctitle and the command line are pure I/O, and test-bin/udp-stress.c,
-- which only sends, is left out.
pub mod Prelude
pub mod Value
pub mod Backend
pub mod Balancer
pub mod Bloom
pub mod Carbon
pub mod City
pub mod Config
pub mod HashTable
pub mod Http
pub mod Loop
pub mod Packet
pub mod Receive
pub mod Resolve
pub mod Tick
pub mod EndToEnd
pub mod Server
pub mod Printing
pub mod Secure
pub mod SecureSend
pub mod Search
pub mod Log
pub mod Title
pub mod Slab
pub mod Histogram
pub mod Stats
pub mod Metric
pub mod Statsd
