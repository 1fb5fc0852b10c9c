-- ===== src/Http/Rounds.antt =====
-- The scans of a query end within the rounds they are given.
use tstracker.Http.Within.{
  Within, Within-if, with_number-Within, with_hash-Within, on_keyword-Shrinks, query_loop-ends,
}
use tstracker.Base.{
  ℕ, suc, ◌≢◌, not, Option, none, some, List, [], length, arith, ◌==◌, ◌||◌, if◌then◌else◌, bit_or,
}
use tstracker.Base.Int.{ℤ, pos, negsuc, ltb_ℤ}
use tstracker.Peer.{flag_seeding, flag_completed, flag_stopped}
use tstracker.Scan.{scan_find_keywords, Keyword, scan_searchpath_value}
use tstracker.Http.{HttpError}
use tstracker.Http.Ends.{Leaves, scan_find_keywords-Leaves}
use tstracker.Http.Query.{
  Round, Scanned, with_hash, Announcement, announce_port, announce_left, announce_event,
  announce_numwant, announce_compact, announce_hash, announce_case, announce_round, scan_announce,
  no_announcement, htons, clamp_numwant, is_zero_int, is_some, keywords_announce_event,
  keywords_announce, scrape_case, scrape_round, scan_scrape, keywords_scrape, Wanted, keywords_main,
  keywords_mode, keywords_format, stats_value, stats_case, stats_round, scan_stats,
}

announce_event-Within : (s : List ℕ) (q : Announcement) → Within s (announce_event s q)
unfolding announce_event
announce_event-Within s q =
    go (scan_find_keywords keywords_announce_event scan_searchpath_value s)
      (scan_find_keywords-Leaves keywords_announce_event scan_searchpath_value s)
  where
    go :
        (o : Option (ℤ × List ℕ))
        → Leaves s o
        → Within s (elim o [
          | none ↦ Round.crash
          | some (v, rest) ↦ elim v [
            | negsuc n ↦
                if n == 0 then Round.failed HttpError.error_400_param else Round.again q rest
            | pos n ↦
                Round.again
                  (record q {
                    flag = bit_or q.flag (if n == 1 then flag_completed else flag_stopped);
                  })
                  rest
          ]
        ])
    go none l = tt
    go (some (negsuc n, rest)) (le, how) =
        Within-if (n == 0) s (Round.failed HttpError.error_400_param) (Round.again q rest) tt le
    go (some (pos n, rest)) (le, how) = le

abbrev bad : Round Announcement
bad = Round.failed HttpError.error_400_param

announce_port-Within : (s : List ℕ) (q : Announcement) → Within s (announce_port s q)
unfolding announce_port
announce_port-Within s q = with_number-Within s _ (λ left n rest le.
    Within-if (not (left == 0) || ltb_ℤ (pos 0xffff) n) s bad
      (Round.again (record q { port = htons n }) rest) tt le)

announce_left-Within : (s : List ℕ) (q : Announcement) → Within s (announce_left s q)
unfolding announce_left
announce_left-Within s q = with_number-Within s _ (λ left n rest le.
    Within-if (not (left == 0) || is_zero_int n) s
      (Round.again (record q { flag = bit_or q.flag flag_seeding }) rest) (Round.again q rest) le
      le)

announce_numwant-Within : (s : List ℕ) (q : Announcement) → Within s (announce_numwant s q)
unfolding announce_numwant
announce_numwant-Within s q = with_number-Within s _ (λ left n rest le.
    Within-if (left == 0) s (Round.again (record q { numwant = clamp_numwant n }) rest) bad le tt)

announce_compact-Within : (s : List ℕ) (q : Announcement) → Within s (announce_compact s q)
unfolding announce_compact
announce_compact-Within s q = with_number-Within s _ (λ left n rest le.
    let full : Round Announcement = Round.failed HttpError.error_400_compact in
    let inner = if is_zero_int n then full else Round.again q rest in
    Within-if (left == 0) s inner bad (Within-if (is_zero_int n) s full (Round.again q rest) tt le)
      tt)

announce_hash-Within : (s : List ℕ) (q : Announcement) → Within s (announce_hash s q)
unfolding announce_hash
announce_hash-Within s q =
    let next : List ℕ → List ℕ → Round Announcement =
      λ out rest. Round.again (record q { hash = some out }) rest in
    Within-if (is_some q.hash) s bad (with_hash s next) tt
      (with_hash-Within s next (λ out rest le. le))

announce_case-Within : (v : ℕ) (s : List ℕ) (q : Announcement) → Within s (announce_case v s q)
unfolding announce_case
announce_case-Within v s q =
    let next : List ℕ → List ℕ → Round Announcement =
      λ out rest. Round.again (record q { peer_id = some out }) rest in
    let c6 = if v == 6 then announce_hash s q else with_hash s next in
    let c5 = if v == 5 then announce_compact s q else c6 in
    let c4 = if v == 4 then announce_numwant s q else c5 in
    let c3 = if v == 3 then announce_event s q else c4 in
    let c2 = if v == 2 then announce_left s q else c3 in
    Within-if (v == 1) s (announce_port s q) c2 (announce_port-Within s q) (
      Within-if (v == 2) s (announce_left s q) c3 (announce_left-Within s q) (
        Within-if (v == 3) s (announce_event s q) c4 (announce_event-Within s q) (
          Within-if (v == 4) s (announce_numwant s q) c5 (announce_numwant-Within s q) (
            Within-if (v == 5) s (announce_compact s q) c6 (announce_compact-Within s q) (
              Within-if (v == 6) s (announce_hash s q) (with_hash s next) (announce_hash-Within s q)
                (with_hash-Within s next (λ out rest le. le)))))))

stats_value-Within :
    (keywords : List Keyword) (set_to : ℕ → Wanted) (s : List ℕ)
    → Within s (stats_value keywords set_to s)
unfolding stats_value
stats_value-Within keywords set_to s =
    go (scan_find_keywords keywords scan_searchpath_value s)
      (scan_find_keywords-Leaves keywords scan_searchpath_value s)
  where
    go :
        (o : Option (ℤ × List ℕ))
        → Leaves s o
        → Within s (elim o [
          | none ↦ Round.crash
          | some (v, rest) ↦ elim v [
            | negsuc n ↦ Round.failed HttpError.error_400_param
            | pos n ↦
                if n == 0
                then Round.failed HttpError.error_400_param
                else Round.again (set_to n) rest
          ]
        ])
    go none l = tt
    go (some (negsuc n, rest)) (le, how) = tt
    go (some (pos n, rest)) (le, how) =
        Within-if (n == 0) s (Round.failed HttpError.error_400_param) (Round.again (set_to n) rest)
          tt le

-- Whatever a client sends, the scans of an announce, of a scrape and of a request for statistics end
-- within one round for each byte of the query and one more.
pub scan_announce-ends :
    (s : List ℕ)
    → (scan_announce s ≢ Scanned.unfinished)
      × (scan_scrape s ≢ Scanned.unfinished)
      × (scan_stats s ≢ Scanned.unfinished)
unfolding scan_announce scan_scrape scan_stats announce_round scrape_round stats_round scrape_case
    stats_case
scan_announce-ends s = (
  query_loop-ends announce_round
      (λ t q.
        on_keyword-Shrinks keywords_announce announce_case t q
          (λ n rest. announce_case-Within n rest q))
      (suc (length s)) s no_announcement (omega arith),
  query_loop-ends scrape_round
      (λ t hashes.
        on_keyword-Shrinks keywords_scrape scrape_case t hashes
          (λ n rest. with_hash-Within rest _ (λ out u le. le)))
      (suc (length s)) s [] (omega arith),
  query_loop-ends stats_round
      (λ t w. on_keyword-Shrinks keywords_main stats_case t w (λ n rest.
        Within-if (n == 1) rest (stats_value keywords_mode (λ n. record w { mode = n }) rest)
          (stats_value keywords_format (λ n. record w { format = n }) rest)
          (stats_value-Within keywords_mode (λ n. record w { mode = n }) rest)
          (stats_value-Within keywords_format (λ n. record w { format = n }) rest)))
      (suc (length s)) s (record { mode = 0x0102; format = 0 }) (omega arith),
)
