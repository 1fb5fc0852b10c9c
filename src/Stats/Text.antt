-- ===== src/Stats/Text.antt =====
-- The texts of src/opentracker/ot_stats.c that give the counters, as `sprintf` prints them. `t` is
-- the time since the start, in seconds; a clock may go back.
use tstracker.Base.{
  ℕ, zero, suc, ◌+◌, ◌-◌, ◌*◌, ◌/◌, ◌%◌, ◌^◌, List, [], ◌∷◌, ◌++◌, get_or, u64, ltb, bit_and, ◌==◌,
  if◌then◌else◌, codes, dec, zd,
}
use tstracker.Base.Int.{ℤ, pos, negsuc, sub_ℕ}
use tstracker.Tracker.{Torrent}
use tstracker.Stats.{Stats}

-- The low 32 bits of a `time_t`.
abbrev pub word32 : ℤ → ℕ
word32 (pos n) = n % 2 ^ 32
word32 (negsuc n) = 2 ^ 32 - 1 - n % 2 ^ 32

-- `%i`, of 32 bits.
unfoldable pub print_int : ℕ → List ℕ
print_int n = if ltb n (2 ^ 31) then dec n else codes "-" ++ dec (2 ^ 32 - n)

-- `t / 3600`, which rounds to 0.
abbrev pub hours_of : ℤ → ℤ
hours_of (pos n) = pos (n / 3600)
hours_of (negsuc n) = sub_ℕ 0 (suc n / 3600)

unfoldable pub events_per_time : ℕ → ℤ → ℕ
events_per_time events t = events / (if word32 t == 0 then 1 else word32 t)

-- The lines that the `mrtg` texts begin with.
unfoldable pub mrtg_head : ℕ → ℕ → ℤ → List ℕ
mrtg_head a b t =
    dec a
    ++ codes "\n"
    ++ dec b
    ++ codes "\n"
    ++ print_int (word32 t)
    ++ codes " seconds ("
    ++ print_int (word32 (hours_of t))
    ++ codes " hours)\n"

abbrev pub all_connections : Stats → ℕ
all_connections s = u64 (s.tcp_connections + s.udp_connections)

abbrev pub all_successes : Stats → ℕ
all_successes s = u64 (s.tcp_successfulannounces + s.udp_successfulannounces + s.udp_connects)

abbrev pub udp_successes : Stats → ℕ
udp_successes s = u64 (s.udp_successfulannounces + s.udp_connects)

abbrev pub rates : ℕ → ℕ → ℤ → List ℕ
rates a b t =
    dec (events_per_time a t)
    ++ codes " conns/s :: "
    ++ dec (events_per_time b t)
    ++ codes " success/s."

unfoldable pub stats_connections_mrtg : Stats → ℤ → List ℕ
stats_connections_mrtg s t =
    mrtg_head (all_connections s) (all_successes s) t
    ++ codes "opentracker connections, "
    ++ rates (all_connections s) (all_successes s) t

unfoldable pub stats_udpconnections_mrtg : Stats → ℤ → List ℕ
stats_udpconnections_mrtg s t =
    mrtg_head s.udp_connections (udp_successes s) t
    ++ codes "opentracker udp4 stats, "
    ++ rates s.udp_connections (udp_successes s) t

unfoldable pub stats_tcpconnections_mrtg : Stats → ℤ → List ℕ
stats_tcpconnections_mrtg s t =
    mrtg_head s.tcp_connections s.tcp_successfulannounces t
    ++ codes "opentracker tcp4 stats, "
    ++ rates s.tcp_connections s.tcp_successfulannounces t

unfoldable pub stats_scrape_mrtg : Stats → ℤ → List ℕ
stats_scrape_mrtg s t =
    mrtg_head s.tcp_successfulscrapes s.udp_successfulscrapes t
    ++ codes "opentracker scrape stats, "
    ++ dec (events_per_time (u64 (s.tcp_successfulscrapes + s.udp_successfulscrapes)) t)
    ++ codes " scrape/s (tcp and udp)"

unfoldable pub stats_fullscrapes_mrtg : Stats → ℤ → List ℕ
stats_fullscrapes_mrtg s t =
    mrtg_head (u64 (s.full_scrape_count * 1000)) s.full_scrape_size t
    ++ codes "opentracker full scrape stats, "
    ++ dec (events_per_time s.full_scrape_count t)
    ++ codes " conns/s :: "
    ++ dec (events_per_time s.full_scrape_size t)
    ++ codes " bytes/s."

unfoldable pub stats_return_sync_mrtg : Stats → ℤ → List ℕ
stats_return_sync_mrtg s t =
    mrtg_head s.sync_count 0 t
    ++ codes "opentracker connections, "
    ++ rates (all_connections s) (all_successes s) t

unfoldable pub stats_return_completed_mrtg : Stats → ℤ → List ℕ
stats_return_completed_mrtg s t =
    mrtg_head s.overall_completed 0 t
    ++ codes "opentracker, "
    ++ dec (events_per_time s.overall_completed (hours_of t))
    ++ codes " completed/h."

-- The labels as they are printed, beside the first seven counts.
unfoldable pub stats_httperrors_txt : Stats → List ℕ
stats_httperrors_txt s =
    let count : ℕ → List ℕ = λ i. dec (get_or s.failed_request_counts i 0) in
    codes "302 RED "
    ++ count 0
    ++ codes "\n400 ... "
    ++ count 1
    ++ codes "\n400 PAR "
    ++ count 2
    ++ codes "\n400 COM "
    ++ count 3
    ++ codes "\n403 IP  "
    ++ count 4
    ++ codes "\n404 INV "
    ++ count 5
    ++ codes "\n500 SRV "
    ++ count 6
    ++ codes "\n"

-- `%02i` of a number below 100.
abbrev pub two_digits : ℕ → List ℕ
two_digits i = (48 + i / 10) ∷ (48 + i % 10) ∷ []

-- The loop over the minutes, `n` of them from `i` on.
unfoldable pub renew_lines : Stats → ℕ → ℕ → List ℕ
renew_lines s i zero = []
renew_lines s i (suc n) =
    two_digits i ++ codes " " ++ dec (get_or s.renewed i 0) ++ codes "\n" ++ renew_lines s (suc i) n

unfoldable pub stats_return_renew_bucket : Stats → List ℕ
stats_return_renew_bucket s = renew_lines s 0 45

-- `torrent_stats`, and the callback that adds one torrent.
pub record TorrentStats : Type 0 where
  pub torrent_count : ℕ
  pub peer_count : ℕ
  pub seed_count : ℕ

unfoldable pub torrent_statter : Torrent → TorrentStats → TorrentStats
torrent_statter t stats = record {
  torrent_count = u64 (stats.torrent_count + 1);
  peer_count = u64 (stats.peer_count + t.peer_list.peer_count);
  seed_count = u64 (stats.seed_count + t.peer_list.seed_count);
}

unfoldable pub stats_peers_mrtg : TorrentStats → List ℕ
stats_peers_mrtg stats =
    dec stats.peer_count
    ++ codes "\n"
    ++ dec stats.seed_count
    ++ codes "\nopentracker serving "
    ++ dec stats.torrent_count
    ++ codes " torrents\nopentracker"

unfoldable pub stats_torrents_mrtg : ℕ → List ℕ
stats_torrents_mrtg torrent_count =
    zd torrent_count
    ++ codes "\n"
    ++ zd 0
    ++ codes "\nopentracker serving "
    ++ zd torrent_count
    ++ codes " torrents\nopentracker"

-- `return_stats_for_tracker`: the text of a mode of its own class, or nothing.
unfoldable pub return_stats_for_tracker : Stats → ℤ → ℕ → List ℕ
return_stats_for_tracker s t mode =
    let m = bit_and mode 0x0fff in
    if m == 1
    then stats_connections_mrtg s t
    else if m == 4
    then stats_scrape_mrtg s t
    else if m == 3
    then stats_udpconnections_mrtg s t
    else if m == 2
    then stats_tcpconnections_mrtg s t
    else if m == 5
    then stats_fullscrapes_mrtg s t
    else if m == 12
    then stats_return_completed_mrtg s t
    else if m == 7
    then stats_httperrors_txt s
    else if m == 10
    then stats_return_renew_bucket s
    else if m == 11
    then stats_return_sync_mrtg s t
    else []
