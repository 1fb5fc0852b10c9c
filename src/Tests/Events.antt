-- ===== src/Tests/Events.antt =====
-- Events that are counted, and requests over HTTP.
use tstracker.Access.{Blessing, accesslist_isblessed, accesslist_blessip, bless_all}
use tstracker.Access.Granted.{Granted, accesslist_isblessed-Granted}
use tstracker.Base.{
  ℕ, ◌+◌, ◌≤◌, ◌≡◌, refl, arith, true, false, List, [], ◌∷◌, length, replicate, some, codes, memcmp,
  zd, dec, dec_loop, u64,
}
use tstracker.Base.Int.{pos}
use tstracker.Tracker.Response.{Proto}
use tstracker.Stats.{StatusEvent, Issued, Stats, no_stats, issue_event, issue_all, bump_at}
use tstracker.Stats.Counts.{Counter, read_counter, occurrences, issue_all-occurrences}
use tstracker.Http.{success_http_header_length}
use tstracker.Scan.{
  scan_urlencoded_query, decode_loop, is_unreserved, fromhex, scan_find_keywords, keyword_loop,
  keyword_hit, strncmp_equal,
}
use tstracker.Http.Query.{
  query_loop, stats_round, stats_case, stats_value, on_keyword, skip_value, scan_stats,
}
use tstracker.Http.Request.{
  on_path, choose, http_handle_stats, answer_stats, Site, Handled, http_handle_request,
}
use tstracker.Http.Total.{http_handle_request-Granted}
use tstracker.Tests.Packets.{draws, host}
use tstracker.Tests.Scrapes.{tracker}

abbrev failure : Issued
failure = record { event = StatusEvent.failed; proto = Proto.tcp; event_data = 6 }

abbrev scraping : Issued
scraping = record { event = StatusEvent.scrape; proto = Proto.tcp; event_data = 80 }

abbrev later : Stats
later = record no_stats {
  tcp_successfulscrapes = 1;
  full_scrape_count = 1;
  full_scrape_size = 80;
  failed_request_counts = 0 ∷ 0 ∷ 0 ∷ 0 ∷ 0 ∷ 0 ∷ 2 ∷ 0 ∷ [];
}

events_counted : issue_all (failure ∷ scraping ∷ failure ∷ []) no_stats ≡ some later
unfolding issue_all issue_event bump_at
events_counted = refl

issue_all-occurrences_example :
    read_counter (Counter.http_errors 6) later
    ≡ u64 (
        read_counter (Counter.http_errors 6) no_stats
        + occurrences (Counter.http_errors 6) (failure ∷ scraping ∷ failure ∷ []))
issue_all-occurrences_example =
    issue_all-occurrences (Counter.http_errors 6) (failure ∷ scraping ∷ failure ∷ []) no_stats later
      (omega arith) events_counted

abbrev room : List ℕ
room = replicate 80 0

abbrev reply : List ℕ
reply = codes "d8:intervali1800ee"

room_right : length room ≡ success_http_header_length
room_right = refl

reply_short : length (zd (length reply)) ≤ 17
unfolding zd dec dec_loop
reply_short = omega arith

-- The second of two blessings is the one for statistics.
abbrev blessings : List Blessing
blessings =
    record { ip = replicate 16 9; permissions = 2 }
    ∷ record { ip = replicate 16 0; permissions = 3 }
    ∷ []

accesslist_isblessed-Granted_example :
    (accesslist_isblessed (replicate 16 0) 2 (bless_all blessings []) ≡ true
      → Granted blessings (replicate 16 0) 2)
    × (Granted blessings (replicate 16 0) 2
        → accesslist_isblessed (replicate 16 0) 2 (bless_all blessings []) ≡ true)
accesslist_isblessed-Granted_example = accesslist_isblessed-Granted blessings (replicate 16 0) 2

abbrev site : Site
site = record {
  host = host;
  draws = draws;
  has_redirecturl = false;
  stats_path = codes "stats";
  stats = no_stats;
  uptime = pos 60;
  cookie_ip = replicate 16 0;
  admins = bless_all blessings [];
}

peers_delivered :
    http_handle_request site tracker (codes "GET /stats?mode=peer HTTP/1.0")
    ≡ Handled.delivered 0x0102
unfolding http_handle_request on_path choose http_handle_stats answer_stats scan_stats query_loop
    stats_round stats_case stats_value on_keyword skip_value scan_urlencoded_query decode_loop
    is_unreserved fromhex scan_find_keywords keyword_loop keyword_hit strncmp_equal memcmp
    accesslist_isblessed bless_all accesslist_blessip
peers_delivered = refl

http_handle_request-Granted_example : Granted blessings (replicate 16 0) 2
http_handle_request-Granted_example =
    http_handle_request-Granted blessings site tracker (codes "GET /stats?mode=peer HTTP/1.0")
      0x0102 refl peers_delivered
