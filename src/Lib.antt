-- ===== src/Lib.antt =====
-- yeti-pg-ext: the PostgreSQL extension of the Yeti switch, a set of C functions for SQL.
--
-- The program's parts. Each SQL function stands in a file src/f_*.c. tag_action and tag_compare
-- work on integer arrays as sets of tags; process_templates puts values for placeholders. The
-- lnp_* functions ask number portability servers over UDP: they set the endpoints and the timeouts
-- (src/f_lnp_endpoints_set.c and others), which src/resolver.c keeps; `resolve` there builds a
-- datagram, sends it through src/transport.c, waits, and reads the answers. src/endpoints_cache.c
-- keeps mocked answers by key. replace_rand puts random digits for calls r(n) in a text, and the
-- regexp_replace_rand functions do so, and put values for placeholders, before they replace by a
-- regular expression. tbf_rate_check counts requests against token buckets in shared memory,
-- and rank_dns_srv draws an order of DNS records by their weights.
--
-- Which file models which part:
--   Tags: src/f_tag_action.c (Tags/Action) and src/f_tag_compare.c (Tags/Compare). A `Datum` buffer
--     (Tags/Buffer) is the bytes asked of the allocator and the entries written; each access is
--     tested against the bytes. Tags/Sets describes the sets. An array is a list of values or NULLs.
--   Templates: src/f_process_templates.c. A text is its bytes; Templates/Meaning says what a template
--     is and what it stands for.
--   Cache: src/endpoints_cache.c and src/f_lnp_endpoints_cache_set.c over the interface Cache/Table
--     of PostgreSQL's dynahash, which Cache/Assoc fills for concrete runs; Cache/Contents has
--     the operations in any order beside a plain map. The memory of an entry is the response and
--     the flag behind it.
--   Resolver: src/resolver.c, src/transport.c, src/request_id.c, src/uri_parser.c and the functions
--     that set endpoints and timeouts. Message holds the datagrams, Uri `parseAddr`, Endpoints the
--     variables of the files and the functions that set them, Resolve the call of `resolve`. The
--     answers of sendto, poll and recvfrom are lists in a record `World`, consumed in order, beside
--     what rand() gives; `attempts` is the outer loop, `turn` its body, `receive` the inner loop.
--     Texts holds the texts of errors; Rule says what carries through the call, and Failover,
--     Provenance, Steady and Errors use it; Rounds, Served, Delivery and Sending are about runs.
--   Lookup: src/f_lnp_resolve.c, the functions that ask for a number, over Cache and Resolver.
--     Delivery follows a server's answer into the row, Mocked an answer in the cache.
--   Rand: src/replace_rand.c and src/f_replace_rand.c. Scan and Brackets are about where the
--     placeholders are found, Texts says what a text is made of, Fill and Meaning what becomes of it.
--   Regexp: src/f_regexp_replace_rand.c, the loops in Regexp itself, the SQL functions in
--     Regexp/Calls. Split is about the chunks of a text, Chunks, Walk and Laws about one input,
--     Arrays and Elements about arrays of them, Left about what stays in fcinfo. The regular
--     expressions are a record `Engine`.
--   Sort: src/f_sort_srv.c. Draw is about one draw, Chances (with Tally) about the numbers
--     that lead to each row, Ranks about the draws of a partition.
--   Tbf: src/f_tbf_rate_check.c over the same table interface as Cache. Buckets is one bucket by
--     itself, Requests says which calls ask for a key, Runs and Laws are about sequences of calls,
--     Room about a table of limited size. Memory is the request for shared memory and the
--     startup of a process, over an interface `Shmem`, Attach about the processes that share it.
--   Extension: src/init.c and src/fini.c, over all of these.
--   Session: a backend process with the extension loaded, which calls the functions with state of
--     src/exported_functions.h; `Reach` is the step relation, with steps of other processes. Sound is
--     its invariant, Mocked says what the lookups give, Safety and Stood which calls keep to their
--     memory, Unload what unloading leaves.
--   Base: lists over the native numbers, tests, C strings, and `Outcome`: a result, an ERROR of
--     PostgreSQL, or an access out of bounds.
--
-- Functions of the source have their names in the model, parseAddr being parse_addr, and the
-- prefixes __ec_ and __tr_ dropped. Numbers are natural: an int4 argument is its 32-bit pattern, a
-- uint32_t wraps at 2 ^ 32, a uint8_t at 256. A datagram's numbers have the least byte first.
--
-- Bounds and fuel: the loop of replace_placeholders runs on fuel, the length of the text, of which
-- each round drops a byte or more, the token search of Regexp on one more than that; its loops over
-- the chunks run on nine, where the source stops too. That it is enough is part of what is proved;
-- where it is not, a function has no value or a fault. The other loops are structural: over an
-- array or a text, down from a position, over the endpoints left or the datagrams to come. Where the
-- datagrams run out the call waits.
--
-- Not modelled: memory that is freed, log texts, the copies that PostgreSQL makes of texts and
-- arrays, allocations that fail, the library functions (regular expressions, JSON containers,
-- numeric_out, inet_aton, rand_r, strerror, dynahash, shared memory, the arithmetic on floats), which
-- are parameters, the ERROR of the functions that give a record where the caller takes none, negative weights in
-- src/f_sort_srv.c, what sscanf looks at behind the text in src/replace_rand.c, and a second call of
-- rand() in one call of resolve, which a first that gave 0 leads to.
pub mod Base
pub mod Tags
pub mod Templates
pub mod Cache
pub mod Resolver
pub mod Lookup
pub mod Rand
pub mod Regexp
pub mod Tbf
pub mod Sort
pub mod Extension
pub mod Session
