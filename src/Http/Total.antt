-- ===== src/Http/Total.antt =====
-- `http_handle_request` scans to an end, and who gets statistics from the workers.
use tstracker.Access.{Blessing, may_stat, accesslist_isblessed, bless_all}
use tstracker.Access.Granted.{Granted, accesslist_isblessed-Granted}
use tstracker.Base.{
  ℕ, ◌≡◌, ◌≢◌, ◌∙◌, sym, ap, refl, inl, inr, Bool, true, false, Option, none, some, List, [], ◌∷◌,
  ◌++◌, length, take, drop, ◌==◌, ◌||◌, ◌&&◌, if◌then◌else◌, Option-cases, get_or, codes, bit_and,
}
use tstracker.Scan.{Query, scan_urlencoded_query, scan_path}
use tstracker.Base.Int.{pos_part}
use tstracker.Peer.{flag_stopped, has_flag}
use tstracker.Tracker.Response.{Proto}
use tstracker.Stats.Text.{return_stats_for_tracker}
use tstracker.Service.{Served, remove_peer, add_peer_to_torrent_and_return_peers}
use tstracker.Scrape.{AllTorrents, return_tcp_scrape_for_torrent}
use tstracker.Http.{HttpError}
use tstracker.Http.Query.{Scanned, Announcement, scan_announce, scan_scrape, scan_stats}
use tstracker.Http.Rounds.{scan_announce-ends}
use tstracker.Http.Request.{
  Site, Handled, Start, query_start, after, from_start, after_removal, after_service, after_scrape,
  peer_of, max_multiscrape_count, answer_stats, on_path, answer_announce, http_handle_announce,
  answer_scrape, http_handle_scrape, http_handle_stats, choose, http_handle_request, not_empty,
  drop_slashes, equal_bytes, byte_before,
}

module _ (site : Site) (s : AllTorrents) where
  -- A call of the tracker logic, for what was scanned of a query, that has no result.
  pub data TrackerStuck : Type 0 where
    in_removal :
        (query hash : List ℕ) (q : Announcement)
        → scan_announce query ≡ Scanned.scanned q
        → q.hash ≡ some hash
        → remove_peer site.draws Proto.tcp hash (peer_of site.cookie_ip q) s ≡ none
        → TrackerStuck
    in_announcement :
        (query hash : List ℕ) (q : Announcement)
        → scan_announce query ≡ Scanned.scanned q
        → q.hash ≡ some hash
        → add_peer_to_torrent_and_return_peers site.host site.draws Proto.tcp hash
            (peer_of site.cookie_ip q)
            (pos_part q.numwant)
            s
          ≡ none
        → TrackerStuck
    in_scrape :
        (query : List ℕ) (hashes : List (List ℕ))
        → scan_scrape query ≡ Scanned.scanned hashes
        → return_tcp_scrape_for_torrent site.host.memory site.host.now_minutes
            (take max_multiscrape_count hashes)
            s
          ≡ none
        → TrackerStuck

  -- A scan that does not end is not done, and the workers only get a task from one who may see the
  -- statistics.
  abbrev IsDone : Handled → Type 0
  IsDone Handled.unfinished = ⊥
  IsDone Handled.stuck = TrackerStuck
  IsDone (Handled.delivered m) = accesslist_isblessed site.cookie_ip may_stat site.admins ≡ true
  IsDone _ = Unit

  if-IsDone : (b : Bool) (x y : Handled) → IsDone x → IsDone y → IsDone (if b then x else y)
  if-IsDone true x y hx hy = hx
  if-IsDone false x y hx hy = hy

  guard-IsDone :
      (b : Bool) (x y : Handled) → (b ≡ true → IsDone x) → IsDone y → IsDone (if b then x else y)
  guard-IsDone true x y hx hy = hx refl
  guard-IsDone false x y hx hy = hy

  not_empty-IsDone : (h : Handled) → IsDone h → IsDone (not_empty h)
  not_empty-IsDone (Handled.replied [] i e t) d = tt
  not_empty-IsDone (Handled.replied (x ∷ xs) i e t) d = tt
  not_empty-IsDone Handled.crash d = tt
  not_empty-IsDone (Handled.failed e) d = tt
  not_empty-IsDone (Handled.delivered m) d = d
  not_empty-IsDone Handled.unfinished d = d
  not_empty-IsDone Handled.stuck d = d

  after-IsDone :
      {A : Type 0} (next : A → Handled) (r : Scanned A)
      → r ≢ Scanned.unfinished
      → ((a : A) → r ≡ Scanned.scanned a → IsDone (next a))
      → IsDone (after next r)
  after-IsDone next Scanned.crash ends h = tt
  after-IsDone next Scanned.unfinished ends h = absurd (ends refl)
  after-IsDone next (Scanned.failed e) ends h = tt
  after-IsDone next (Scanned.scanned a) ends h = h a refl

  from_start-IsDone :
      {A : Type 0} (scan : List ℕ → Scanned A) (next : A → Handled) (r : Start)
      → ((t : List ℕ) → scan t ≢ Scanned.unfinished)
      → ((t : List ℕ) (a : A) → scan t ≡ Scanned.scanned a → IsDone (next a))
      → IsDone (from_start scan next r)
  from_start-IsDone scan next Start.crash ends h = tt
  from_start-IsDone scan next Start.missing ends h = tt
  from_start-IsDone scan next (Start.start_at t) ends h = after-IsDone next (scan t) (ends t) (h t)

  removal-IsDone :
      (o : Option (Option (List ℕ) × AllTorrents))
      → (o ≡ none → TrackerStuck)
      → IsDone (after_removal o)
  removal-IsDone none h = h refl
  removal-IsDone (some (none, t)) h = tt
  removal-IsDone (some (some reply, t)) h = tt

  service-IsDone : (o : Option Served) → (o ≡ none → TrackerStuck) → IsDone (after_service o)
  service-IsDone none h = h refl
  service-IsDone (some a) h = tt

  scrape-IsDone :
      (o : Option (List ℕ × AllTorrents)) → (o ≡ none → TrackerStuck) → IsDone (after_scrape o)
  scrape-IsDone none h = h refl
  scrape-IsDone (some (reply, t)) h = tt

  answer_announce-IsDone :
      (t : List ℕ) (q : Announcement)
      → scan_announce t ≡ Scanned.scanned q
      → IsDone (answer_announce site s q)
  unfolding answer_announce
  answer_announce-IsDone t q scan = elim (Option-cases q.hash) [
    | inl e ↦ rw e tt
    | inr (hash, e) ↦ rw e (
        if-IsDone (has_flag q.flag flag_stopped) (after_removal _) (after_service _)
          (removal-IsDone (remove_peer site.draws Proto.tcp hash (peer_of site.cookie_ip q) s)
            (in_removal t hash q scan e))
          (service-IsDone
            (add_peer_to_torrent_and_return_peers site.host site.draws Proto.tcp hash
              (peer_of site.cookie_ip q) (pos_part q.numwant) s)
            (in_announcement t hash q scan e)))
  ]

  choose-IsDone :
      (n : ℕ) (written : List ℕ) (before : ℕ) (rest : List ℕ)
      → IsDone (choose site s n written before rest)
  unfolding choose http_handle_announce http_handle_scrape answer_scrape http_handle_stats
      answer_stats
  choose-IsDone n written before rest =
      let announce =
        from_start-IsDone scan_announce (answer_announce site s) (query_start before rest)
          (λ t. (scan_announce-ends t).0) answer_announce-IsDone in
      let scrape =
        from_start-IsDone scan_scrape (answer_scrape site s) (query_start before rest)
          (λ t. (scan_announce-ends t).1)
          (λ t hashes scan.
            if-IsDone (length hashes == 0) (Handled.failed HttpError.error_400_param)
              (after_scrape _) tt
              (scrape-IsDone
                (return_tcp_scrape_for_torrent site.host.memory site.host.now_minutes
                  (take max_multiscrape_count hashes) s)
                (in_scrape t hashes scan))) in
      let stats : accesslist_isblessed site.cookie_ip may_stat site.admins ≡ true
          → IsDone (after (answer_stats site s) (scan_stats rest)) =
        λ may.
          after-IsDone (answer_stats site s) (scan_stats rest) (scan_announce-ends rest).2
            (λ w scan.
              if-IsDone (bit_and w.mode 0x0f00 == 0x0100) (Handled.delivered w.mode)
                (Handled.replied (return_stats_for_tracker site.stats site.uptime w.mode) [] [] s)
                may tt) in
      let denied = Handled.failed HttpError.error_403_ip in
      let missing = Handled.failed HttpError.error_404 in
      let first = get_or written 0 0 in
      let c3 =
        if (n == length site.stats_path) && equal_bytes (take n written) site.stats_path
        then http_handle_stats site s rest
        else missing in
      let c2 =
        if equal_bytes (take 2 written) (codes "sc")
        then http_handle_scrape site s before rest
        else c3 in
      if-IsDone ((first == 97) || (first == 63)) (http_handle_announce site s before rest) c2
        announce
        (if-IsDone (equal_bytes (take 2 written) (codes "sc"))
          (http_handle_scrape site s before rest) c3 scrape
          (if-IsDone ((n == length site.stats_path) && equal_bytes (take n written) site.stats_path)
            (http_handle_stats site s rest) missing
            (guard-IsDone (accesslist_isblessed site.cookie_ip may_stat site.admins)
              (after (answer_stats site s) (scan_stats rest)) denied stats tt)
            tt))

  on_path-IsDone : (path : List ℕ) (q : Query) → IsDone (on_path site s path q)
  unfolding on_path
  on_path-IsDone path Query.fault = tt
  on_path-IsDone path Query.parse_error = tt
  on_path-IsDone path Query.finished = tt
  on_path-IsDone path (Query.parsed out rest) =
      let written = out ++ drop (length out) path in
      let chosen = choose site s (length out) written (byte_before path rest) rest in
      if-IsDone (length out == 0) (Handled.failed HttpError.error_404) (not_empty chosen) tt
        (not_empty-IsDone chosen (choose-IsDone (length out) written (byte_before path rest) rest))

  http_handle_request-IsDone : (request : List ℕ) → IsDone (http_handle_request site s request)
  unfolding http_handle_request
  http_handle_request-IsDone request =
      let path = drop_slashes (drop 4 request) in
      let q = scan_urlencoded_query scan_path path in
      if-IsDone (equal_bytes (take 5 request) (codes "GET /")) (on_path site s path q)
        (Handled.failed HttpError.error_400) (on_path-IsDone path q) tt

  -- Every scan has ended, and what has no result all the same is a call of the tracker logic.
  abbrev pub HasEnded : Handled → Type 0
  HasEnded Handled.unfinished = ⊥
  HasEnded Handled.stuck = TrackerStuck
  HasEnded _ = Unit

  allowed :
      (h : Handled) (m : ℕ)
      → IsDone h
      → h ≡ Handled.delivered m
      → accesslist_isblessed site.cookie_ip may_stat site.admins ≡ true
  allowed Handled.unfinished m d e = cc
  allowed Handled.crash m d e = cc
  allowed Handled.stuck m d e = cc
  allowed (Handled.failed x) m d e = cc
  allowed (Handled.replied r i t u) m d e = cc
  allowed (Handled.delivered n) m d e = d

-- With the permissions that a list of blessings gives, a request that is passed to the workers for
-- statistics came from an address that one of the first 64 blessings lets see the statistics.
pub http_handle_request-Granted :
    (bs : List Blessing) (site : Site) (s : AllTorrents) (request : List ℕ) (m : ℕ)
    → site.admins ≡ bless_all bs []
    → http_handle_request site s request ≡ Handled.delivered m
    → Granted bs site.cookie_ip may_stat
http_handle_request-Granted bs site s request m e h =
    (accesslist_isblessed-Granted bs site.cookie_ip may_stat).0 (
      sym (ap (accesslist_isblessed site.cookie_ip may_stat) e)
      ∙ allowed site s _ m (http_handle_request-IsDone site s request) h)
