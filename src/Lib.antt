-- ===== src/Lib.antt =====
-- The tracker's core: who is in a torrent, who has gone, and what an announcement changes.
--
-- A BitTorrent client announces itself for a torrent. The tracker (opentracker, with the changes of
-- terasaur) keeps 1024 buckets of torrents, each bucket sorted by hash, each torrent with a list of
-- peers sorted by address, or, in a large torrent, spread over buckets by a hash of the address and
-- sorted there. An announcement opens or cleans the torrent, adds the torrent's seedbanks, and
-- stores the peer; a stopping client is removed; peers and torrents that have been silent are
-- cleaned.
--
-- Which file models which part:
--   Base      numbers, tests, lists, byte strings under memcmp, signed integers
--   Vector    src/opentracker/ot_vector.c: binary_search, vector_find_or_insert,
--             vector_remove_torrent, vector_fixup_peers, on one sorted array
--   Peer      include/opentracker/trackerlogic.h: ot_peer, its flags and the tunables
--   Peers     src/opentracker/ot_vector.c: vector_hash_peer, vector_find_or_insert_peer,
--             vector_remove_peer; Peers/Redistribute: vector_redistribute_buckets
--   Peerlist  include/opentracker/trackerlogic.h: ot_peerlist and its invariant
--   Clean     src/opentracker/ot_clean.c: clean_single_bucket, clean_single_torrent
--   Tracker   src/opentracker/trackerlogic.c: add_peer_to_torrent_and_return_peers,
--             remove_peer_from_torrent, add_torrent_from_saved_state, return_peers_all; and
--             ts_torrentdb_add_seedbanks of src/terasaur/ts_export.cpp; Tracker/Select:
--             return_peers_selection; Tracker/Response: return_peers_for_torrent
--   Mutex     src/opentracker/ot_mutex.c: the locked buckets and the task queue; Mutex/Exclusion has
--             threads as a step relation
--   Scrape    src/opentracker/trackerlogic.c: the buckets together, return_udp_scrape_for_torrent,
--             return_tcp_scrape_for_torrent, iterate_all_torrents
--   Worker    src/opentracker/ot_clean.c: the loops of clean_worker
--   Stats     src/opentracker/ot_stats.c: stats_issue_event and its counters; Stats/Text: the texts
--             of return_stats_for_tracker
--   Service   what the handlers call of src/opentracker/trackerlogic.c, with the bucket and the reply
--   Livesync  src/opentracker/ot_livesync.c: livesync_tell, livesync_ticker, livesync_worker;
--             Livesync/Relay has one tracker tell another
--   Proxy     src/opentracker/proxy.c: Proxy/Stream has streamsync_worker and process_indata,
--             Proxy/Handshake the connections with handle_reconnects, handle_accept, handle_read and
--             handle_write; Proxy/Handshake/Steps has their calls as a step relation; Proxy/Relay
--             livesync_proxytell and livesync_ticker, in any order
--   Fullscrape  src/opentracker/ot_fullscrape.c: fullscrape_make; src/opentracker/ot_iovec.c
--   Scan      src/opentracker/scan_urlencoded_query.c: scan_urlencoded_query,
--             scan_find_keywords, scan_urlencoded_skipvalue, scan_fixed_int
--   Udp       src/opentracker/ot_udp.c: handle_udp6, udp_make_connectionid
--   Access    src/opentracker/ot_accesslist.c: accesslist_blessip, accesslist_isblessed
--   Http      src/opentracker/ot_http.c: http_issue_error, http_senddata, the header; Http/Query: the
--             loops over a query; Http/Request: http_handle_request and the handlers it chooses among
--   Tests     runs of the code and the theorems at small inputs
--
-- The state of a part is a record with the fields of the C struct; an array is the list of its live
-- members with its space beside it, so its size is the length of the list, and a pointer into it is
-- an index. An operation is a function from the state and its arguments to the new state. Where C
-- would read outside an array, overflow an `int` or not end a loop the result is `none`. The counters
-- of a torrent are right only below 2^31, as the peers are counted in `int`s. A failed allocation is an
-- outcome of its own: the allocators are parameters, functions from the bytes asked for to whether
-- they are granted, and the theorems assume of them only that nothing of 2^63 bytes or more is. A
-- `size_t` wraps at 2^64 and an `unsigned int` at 2^32. The build is the one of the Jamfile: IPv4
-- peers of 8 bytes, no live sync, no access list; Livesync, Proxy and Fullscrape model code that
-- other builds have.
--
-- Loops: the binary search runs on fuel of one more than the members, the shrinking on the space as
-- fuel, the choice of a bucket size on 64 rounds, as the size doubles. The selection of peers
-- shifts a count below 2^30 for 30 rounds at most, and skips buckets for as many rounds as the
-- offset and the buckets allow. The loop over a query runs on one round for each byte and one more,
-- as a round takes at least one byte. The loop over the bytes of a proxy and the one over a live
-- sync packet run as often as there are bytes, the first once more, as each round takes bytes
-- away but for the last. Printing a full scrape makes room in two rounds, as a new buffer is empty. All others
-- follow a list or a constant of the source.
--
-- Parameters: the torrent database with its seedbanks and valid hashes, the clock, the memory, what
-- `random()` draws, the cipher, the result of `write`, what the sockets of a proxy answer,
-- `fmt_urlencoded` of libowfat, what the tracker does with an announcement of another tracker, and
-- what a buffer holds behind the bytes received. A bucket is locked throughout an operation on it,
-- so its operations are functions of its state. libc's `qsort` is a sort by the order of `memcmp`,
-- `realloc` to a smaller block succeeds.
--
-- Not modelled: the lists of hashes and networks, which the build leaves out, the compression of a
-- full scrape, the statistics that a worker thread makes, sending what a worker has made, the
-- cipher, which is a copy of a public implementation, the event loops, the options, how the proxy
-- stores what the trackers of its network tell it, ot_sync.c, which no longer compiles, and the C++
-- and Python parts around the tracker.
pub mod Access
pub mod Base
pub mod Vector
pub mod Worker
pub mod Livesync
pub mod Proxy
pub mod Fullscrape
pub mod Peer
pub mod Peers
pub mod Peerlist
pub mod Clean
pub mod Tracker
pub mod Scrape
pub mod Stats
pub mod Service
pub mod Udp
pub mod Http
pub mod Mutex
pub mod Scan
pub mod Tests
