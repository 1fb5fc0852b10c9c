-- ===== src/Stats.antt =====
-- src/opentracker/ot_stats.c: the counters, the events that move them, and the texts made of them.
-- Counters are 64 bits wide. `none` is an event that counts outside its array.
pub mod Counts
pub mod Text
use tstracker.Base.{
  ℕ, ◌+◌, Option, none, some, List, [], ◌∷◌, get_elem?, set, replicate, u64, ◌>>=◌,
}
use tstracker.Tracker.Response.{Proto, tcp}

-- `ot_status_event`
pub data StatusEvent : Type 0 where
  accept read connect announce completed renew sync scrape : StatusEvent
  fullscrape_request fullscrape_request_gzip fullscrape failed : StatusEvent
  bucket_locked woodpecker connid_missmatch : StatusEvent

-- An event with its protocol and its number; where the code passes a pointer, no counter reads it.
pub record Issued : Type 0 where
  pub event : StatusEvent
  pub proto : Proto
  pub event_data : ℕ

pub record Stats : Type 0 where
  pub tcp_connections : ℕ
  pub udp_connections : ℕ
  pub tcp_successfulannounces : ℕ
  pub udp_successfulannounces : ℕ
  pub tcp_successfulscrapes : ℕ
  pub udp_successfulscrapes : ℕ
  pub udp_connectionidmissmatches : ℕ
  pub tcp_connects : ℕ
  pub udp_connects : ℕ
  pub overall_completed : ℕ
  pub full_scrape_count : ℕ
  pub full_scrape_request_count : ℕ
  pub full_scrape_size : ℕ
  pub failed_request_counts : List ℕ
  pub renewed : List ℕ
  pub sync_count : ℕ
  pub stall_count : ℕ

abbrev pub no_stats : Stats
no_stats = record {
  tcp_connections = 0;
  udp_connections = 0;
  tcp_successfulannounces = 0;
  udp_successfulannounces = 0;
  tcp_successfulscrapes = 0;
  udp_successfulscrapes = 0;
  udp_connectionidmissmatches = 0;
  tcp_connects = 0;
  udp_connects = 0;
  overall_completed = 0;
  full_scrape_count = 0;
  full_scrape_request_count = 0;
  full_scrape_size = 0;
  failed_request_counts = replicate 8 0;
  renewed = replicate 45 0;
  sync_count = 0;
  stall_count = 0;
}

unfoldable pub bump_at : List ℕ → ℕ → Option (List ℕ)
bump_at xs i = do n ← get_elem? xs i; some (set xs i (u64 (n + 1)))

-- What EVENT_SCRAPE does too, since its case falls through.
abbrev pub count_fullscrape : ℕ → Stats → Stats
count_fullscrape size s = record s {
  full_scrape_count = u64 (s.full_scrape_count + 1);
  full_scrape_size = u64 (s.full_scrape_size + size);
}

unfoldable pub issue_event : StatusEvent → Proto → ℕ → Stats → Option Stats
issue_event StatusEvent.accept Proto.tcp n s =
    some (record s { tcp_connections = u64 (s.tcp_connections + 1) })
issue_event StatusEvent.accept _ n s =
    some (record s { udp_connections = u64 (s.udp_connections + 1) })
issue_event StatusEvent.announce Proto.tcp n s =
    some (record s { tcp_successfulannounces = u64 (s.tcp_successfulannounces + 1) })
issue_event StatusEvent.announce _ n s =
    some (record s { udp_successfulannounces = u64 (s.udp_successfulannounces + 1) })
issue_event StatusEvent.connect Proto.tcp n s =
    some (record s { tcp_connects = u64 (s.tcp_connects + 1) })
issue_event StatusEvent.connect _ n s = some (record s { udp_connects = u64 (s.udp_connects + 1) })
issue_event StatusEvent.completed proto n s =
    some (record s { overall_completed = u64 (s.overall_completed + 1) })
issue_event StatusEvent.scrape Proto.tcp n s =
    some
      (count_fullscrape n (record s { tcp_successfulscrapes = u64 (s.tcp_successfulscrapes + 1) }))
issue_event StatusEvent.scrape _ n s =
    some
      (count_fullscrape n (record s { udp_successfulscrapes = u64 (s.udp_successfulscrapes + 1) }))
issue_event StatusEvent.fullscrape proto n s = some (count_fullscrape n s)
issue_event StatusEvent.fullscrape_request proto n s =
    some (record s { full_scrape_request_count = u64 (s.full_scrape_request_count + 1) })
issue_event StatusEvent.fullscrape_request_gzip proto n s =
    some (record s { full_scrape_request_count = u64 (s.full_scrape_request_count + 1) })
issue_event StatusEvent.failed proto n s = do
  counts ← bump_at s.failed_request_counts n
  some (record s { failed_request_counts = counts })
issue_event StatusEvent.renew proto n s = do
  counts ← bump_at s.renewed n
  some (record s { renewed = counts })
issue_event StatusEvent.sync proto n s = some (record s { sync_count = u64 (s.sync_count + n) })
issue_event StatusEvent.bucket_locked proto n s =
    some (record s { stall_count = u64 (s.stall_count + 1) })
issue_event StatusEvent.connid_missmatch proto n s =
    some (record s { udp_connectionidmissmatches = u64 (s.udp_connectionidmissmatches + 1) })
issue_event StatusEvent.woodpecker proto n s = some s
issue_event StatusEvent.read proto n s = some s

-- The events of a run, in order.
unfoldable pub issue_all : List Issued → Stats → Option Stats
unfolding issue_event
issue_all [] s = some s
issue_all (e ∷ es) s = do t ← issue_event e.event e.proto e.event_data s; issue_all es t
