-- ===== src/Http/Request.antt =====
-- `http_handle_request` of src/opentracker/ot_http.c with the handlers it chooses among.
use tstracker.Base.{
  ℕ, ◌-◌, Bool, true, false, ◌&&◌, ◌||◌, Option, none, some, List, [], ◌∷◌, ◌++◌, length, take,
  drop, get_or, Ordering, memcmp, ◌==◌, if◌then◌else◌, codes, bit_and,
}
use tstracker.Base.Int.{ℤ, pos_part}
use tstracker.Access.{Blessing, may_stat, accesslist_isblessed}
use tstracker.Peer.{Peer, flag_stopped, has_flag}
use tstracker.Scan.{Query, scan_urlencoded_query, scan_path}
use tstracker.Tracker.{Host, Event}
use tstracker.Tracker.Response.{Proto, Draws}
use tstracker.Scrape.{AllTorrents, return_tcp_scrape_for_torrent}
use tstracker.Stats.{StatusEvent, Issued, Stats}
use tstracker.Stats.Text.{return_stats_for_tracker}
use tstracker.Service.{Served, add_peer_to_torrent_and_return_peers, remove_peer}
use tstracker.Http.{HttpError}
use tstracker.Http.Query.{Scanned, Announcement, Wanted, scan_announce, scan_scrape, scan_stats}

-- The outside of a request: the configuration, the counters, and the address of the client.
pub record Site : Type 0 where
  pub host : Host
  pub draws : Draws
  pub has_redirecturl : Bool
  pub stats_path : List ℕ
  pub stats : Stats
  pub uptime : ℤ
  pub cookie_ip : List ℕ  -- 16 bytes
  pub admins : List Blessing

-- What a handler leaves behind: an error reply, a reply, or a task for the workers that make the
-- statistics. `crash` is a read outside the request, and `unfinished` a scan of it that does not end.
-- `stuck` is a call of the tracker logic that has no result: it faults or loops for ever.
pub data Handled : Type 0 where
  crash unfinished stuck : Handled
  failed : HttpError → Handled
  replied : List ℕ → List Issued → List Event → AllTorrents → Handled
  delivered : ℕ → Handled

abbrev pub tcp_event : StatusEvent → ℕ → Issued
tcp_event e n = record { event = e; proto = Proto.tcp; event_data = n }

-- The place of the query after the path. Some clients send a space before the question mark.
pub data Start : Type 0 where
  crash missing : Start
  start_at : List ℕ → Start

unfoldable pub find_query : List ℕ → Start
find_query [] = Start.crash
find_query (c ∷ s) =
    let rest = find_query s in
    if c == 63 then Start.start_at s else if c == 10 then Start.missing else rest

-- `before` is the byte in front of the place.
abbrev pub query_start : ℕ → List ℕ → Start
query_start before s = if before == 63 then Start.start_at s else find_query s

abbrev pub no_hash_text : List ℕ
no_hash_text =
    codes
      "d14:failure reason80:Your client forgot to send your torrent's info_hash. Please upgrade your client.e"

abbrev pub peer_of : List ℕ → Announcement → Peer
peer_of ip q = record { addr = drop 12 ip ++ q.port; flag = q.flag; time = 0 }

abbrev pub announced : List ℕ → List Event → AllTorrents → Handled
announced reply told t =
    Handled.replied reply
      (tcp_event StatusEvent.accept 0 ∷ tcp_event StatusEvent.announce (length reply) ∷ []) told t

-- What the calls to the tracker logic give; over TCP a removal always has a reply.
abbrev pub after_removal : Option (Option (List ℕ) × AllTorrents) → Handled
after_removal none = Handled.stuck
after_removal (some (none, t)) = Handled.crash
after_removal (some (some reply, t)) = announced reply [] t

abbrev pub after_service : Option Served → Handled
after_service none = Handled.stuck
after_service (some a) = announced a.reply a.events a.torrents

-- The announcement once it is scanned.
unfoldable pub answer_announce : Site → AllTorrents → Announcement → Handled
answer_announce site s q =
    let peer = peer_of site.cookie_ip q in
    elim q.hash [
      | none ↦ Handled.replied no_hash_text (tcp_event StatusEvent.accept 0 ∷ []) [] s
      | some hash ↦
          if has_flag q.flag flag_stopped
          then after_removal (remove_peer site.draws Proto.tcp hash peer s)
          else after_service (
              add_peer_to_torrent_and_return_peers site.host site.draws Proto.tcp hash peer
                (pos_part q.numwant) s)
    ]

-- What follows a scan.
abbrev pub after : {A : Type 0} → (A → Handled) → Scanned A → Handled
after next Scanned.crash = Handled.crash
after next Scanned.unfinished = Handled.unfinished
after next (Scanned.failed e) = Handled.failed e
after next (Scanned.scanned a) = next a

abbrev pub from_start : {A : Type 0} → (List ℕ → Scanned A) → (A → Handled) → Start → Handled
from_start scan next Start.crash = Handled.crash
from_start scan next Start.missing = Handled.failed HttpError.error_400_param
from_start scan next (Start.start_at r) = after next (scan r)

unfoldable pub http_handle_announce : Site → AllTorrents → ℕ → List ℕ → Handled
unfolding answer_announce
http_handle_announce site s before query =
    from_start scan_announce (answer_announce site s) (query_start before query)

abbrev pub max_multiscrape_count : ℕ
max_multiscrape_count = 64

abbrev pub after_scrape : Option (List ℕ × AllTorrents) → Handled
after_scrape none = Handled.stuck
after_scrape (some (reply, t)) =
    Handled.replied reply (tcp_event StatusEvent.scrape (length reply) ∷ []) [] t

unfoldable pub answer_scrape : Site → AllTorrents → List (List ℕ) → Handled
answer_scrape site s hashes =
    let scraped =
      return_tcp_scrape_for_torrent site.host.memory site.host.now_minutes
        (take max_multiscrape_count hashes) s in
    if length hashes == 0 then Handled.failed HttpError.error_400_param else after_scrape scraped

unfoldable pub http_handle_scrape : Site → AllTorrents → ℕ → List ℕ → Handled
unfolding answer_scrape
http_handle_scrape site s before query =
    from_start scan_scrape (answer_scrape site s) (query_start before query)

-- The class 0x0100 of modes is made by a worker.
unfoldable pub answer_stats : Site → AllTorrents → Wanted → Handled
answer_stats site s w =
    if bit_and w.mode 0x0f00 == 0x0100
    then Handled.delivered w.mode
    else Handled.replied (return_stats_for_tracker site.stats site.uptime w.mode) [] [] s

unfoldable pub http_handle_stats : Site → AllTorrents → List ℕ → Handled
unfolding answer_stats
http_handle_stats site s query =
    let answered = after (answer_stats site s) (scan_stats query) in
    if accesslist_isblessed site.cookie_ip may_stat site.admins
    then answered
    else Handled.failed HttpError.error_403_ip

abbrev pub drop_slashes : List ℕ → List ℕ
drop_slashes [] = []
drop_slashes (c ∷ s) = let rest = drop_slashes s in if c == 47 then rest else c ∷ s

abbrev pub equal_bytes : List ℕ → List ℕ → Bool
equal_bytes xs ys = elim (memcmp xs ys) [ Ordering.eq ↦ true | _ ↦ false ]

-- The byte before the place `rest` of `s`.
abbrev pub byte_before : List ℕ → List ℕ → ℕ
byte_before s rest = get_or s (length s - length rest - 1) 0

-- The choice of the handler by the path, as it lies decoded in the buffer, `n` bytes of it.
unfoldable pub choose : Site → AllTorrents → ℕ → List ℕ → ℕ → List ℕ → Handled
choose site s n written before rest =
    let first = get_or written 0 0 in
    if (first == 97) || (first == 63)
    then http_handle_announce site s before rest
    else if equal_bytes (take 2 written) (codes "sc")
    then http_handle_scrape site s before rest
    else if (n == length site.stats_path) && equal_bytes (take n written) site.stats_path
    then http_handle_stats site s rest
    else Handled.failed HttpError.error_404

-- A reply of no bytes is an error.
abbrev pub not_empty : Handled → Handled
not_empty (Handled.replied [] issued told t) = Handled.failed HttpError.error_500
not_empty h = h

-- What follows the scan of the path. An escape is decoded in place, so behind the decoded path the
-- buffer is as it was.
unfoldable pub on_path : Site → AllTorrents → List ℕ → Query → Handled
unfolding choose
on_path site s path Query.fault = Handled.crash
on_path site s path Query.parse_error = Handled.failed HttpError.error_404
on_path site s path Query.finished =
    Handled.failed (if site.has_redirecturl then HttpError.error_302 else HttpError.error_404)
on_path site s path (Query.parsed out rest) =
    let chosen =
      choose site s (length out) (out ++ drop (length out) path) (byte_before path rest) rest in
    if length out == 0 then Handled.failed HttpError.error_404 else not_empty chosen

-- Up to the reply or the error that is sent.
unfoldable pub http_handle_request : Site → AllTorrents → List ℕ → Handled
unfolding on_path
http_handle_request site s request =
    let path = drop_slashes (drop 4 request) in
    let found = on_path site s path (scan_urlencoded_query scan_path path) in
    if equal_bytes (take 5 request) (codes "GET /")
    then found
    else Handled.failed HttpError.error_400
