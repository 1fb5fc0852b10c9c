-- ===== src/Http/Query.antt =====
-- The queries of src/opentracker/ot_http.c: the loops that scan the parameters of an announce, of a
-- scrape and of a request for statistics. A query is what the request buffer holds from its place on.
use tstracker.Base.{
  ℕ, zero, suc, ◌-◌, ◌/◌, ◌%◌, Bool, true, false, not, ◌||◌, Option, none, some, List, [], ◌∷◌,
  ◌++◌, length, bit_or, ◌==◌, if◌then◌else◌, codes,
}
use tstracker.Base.Int.{ℤ, pos, negsuc, ltb_ℤ}
use tstracker.Peer.{flag_seeding, flag_completed, flag_stopped}
use tstracker.Scan.{
  Query, Keyword, scan_urlencoded_query, scan_find_keywords, scan_urlencoded_skipvalue,
  scan_searchpath_param, scan_searchpath_value,
}
use tstracker.Scan.Fixed.{scan_fixed_int}
use tstracker.Http.{HttpError}

-- One round of a loop: a read outside the buffer, an error reply, the end, or what it goes on with.
pub data Round (A : Type 0) : Type 0 where
  crash : Round A
  failed : HttpError → Round A
  ended : A → Round A
  again : A → List ℕ → Round A

-- A loop as a whole; `unfinished` is the end of the fuel.
pub data Scanned (A : Type 0) : Type 0 where
  crash unfinished : Scanned A
  failed : HttpError → Scanned A
  scanned : A → Scanned A

module _ {A : Type 0} where
  unfoldable pub query_loop : (List ℕ → A → Round A) → ℕ → List ℕ → A → Scanned A
  query_loop round zero s a = Scanned.unfinished
  query_loop round (suc fuel) s a = elim (round s a) [
    | crash ↦ Scanned.crash
    | failed e ↦ Scanned.failed e
    | ended b ↦ Scanned.scanned b
    | again b t ↦ query_loop round fuel t b
  ]

  -- A part that must not be empty.
  unfoldable pub with_value : List ℕ → (List ℕ → List ℕ → Round A) → Round A
  with_value s next = elim (scan_urlencoded_query scan_searchpath_value s) [
    | Query.fault ↦ Round.crash
    | Query.parse_error ↦ Round.failed HttpError.error_400_param
    | Query.finished ↦ Round.failed HttpError.error_400_param
    | Query.parsed out rest ↦
        if length out == 0 then Round.failed HttpError.error_400_param else next out rest
  ]

  -- The number of a part, with what is left of its length.
  unfoldable pub with_number : List ℕ → (ℕ → ℤ → List ℕ → Round A) → Round A
  unfolding with_value
  with_number s next = with_value s (λ out rest. elim (scan_fixed_int out) [
    | none ↦ Round.crash
    | some (left, n) ↦ next left n rest
  ])

  -- A part of 20 bytes.
  unfoldable pub with_hash : List ℕ → (List ℕ → List ℕ → Round A) → Round A
  unfolding with_value
  with_hash s next = with_value s (λ out rest.
      if length out == 20 then next out rest else Round.failed HttpError.error_400_param)

  unfoldable pub skip_value : A → List ℕ → Round A
  skip_value a s = elim (scan_urlencoded_skipvalue s) [
    | none ↦ Round.crash
    | some t ↦ Round.again a t
  ]

  -- The switch over the keyword: -1, -2, -3, or the case of its value.
  unfoldable pub on_keyword : List Keyword → (ℕ → List ℕ → A → Round A) → List ℕ → A → Round A
  unfolding skip_value
  on_keyword keywords case s a = elim (scan_find_keywords keywords scan_searchpath_param s) [
    | none ↦ Round.crash
    | some (v, rest) ↦ elim v [
      | negsuc n ↦
          if n == 0
          then Round.failed HttpError.error_400_param
          else if n == 1
          then Round.ended a
          else skip_value a rest
      | pos n ↦ case n rest a
    ]
  ]

abbrev pub keyword : List ℕ → ℕ → Keyword
keyword key value = record { key = key; value = pos value }

abbrev pub keywords_announce : List Keyword
keywords_announce =
    keyword (codes "port") 1
    ∷ keyword (codes "left") 2
    ∷ keyword (codes "event") 3
    ∷ keyword (codes "numwant") 4
    ∷ keyword (codes "compact") 5
    ∷ keyword (codes "compact6") 5
    ∷ keyword (codes "info_hash") 6
    ∷ keyword (codes "peer_id") 9
    ∷ []

abbrev pub keywords_announce_event : List Keyword
keywords_announce_event = keyword (codes "completed") 1 ∷ keyword (codes "stopped") 2 ∷ []

abbrev pub keywords_scrape : List Keyword
keywords_scrape = keyword (codes "info_hash") 1 ∷ []

-- What an announce has said so far.
pub record Announcement : Type 0 where
  pub port : List ℕ  -- two bytes, as they lie in the peer
  pub flag : ℕ
  pub numwant : ℤ
  pub hash : Option (List ℕ)
  pub peer_id : Option (List ℕ)

abbrev pub no_announcement : Announcement
no_announcement = record {
  port = 0 ∷ 0 ∷ [];
  flag = 0;
  numwant = pos 50;
  hash = none;
  peer_id = none;
}

-- `htons` of the low 16 bits of an `int`, as it lies in memory.
unfoldable pub htons : ℤ → List ℕ
htons (pos n) = (n / 256 % 256) ∷ (n % 256) ∷ []
htons (negsuc n) = (255 - n / 256 % 256) ∷ (255 - n % 256) ∷ []

abbrev pub is_zero_int : ℤ → Bool
is_zero_int (pos n) = n == 0
is_zero_int (negsuc n) = false

unfoldable pub clamp_numwant : ℤ → ℤ
clamp_numwant n =
    let m = if ltb_ℤ n (pos 0) then pos 50 else n in if ltb_ℤ (pos 200) m then pos 200 else m

abbrev pub is_some : Option (List ℕ) → Bool
is_some none = false
is_some (some h) = true

-- The cases of the switch, by the values of the keywords.
unfoldable pub announce_port : List ℕ → Announcement → Round Announcement
announce_port s q = with_number s (λ left n rest.
    if not (left == 0) || ltb_ℤ (pos 0xffff) n
    then Round.failed HttpError.error_400_param
    else Round.again (record q { port = htons n }) rest)

unfoldable pub announce_left : List ℕ → Announcement → Round Announcement
announce_left s q = with_number s (λ left n rest.
    if not (left == 0) || is_zero_int n
    then Round.again (record q { flag = bit_or q.flag flag_seeding }) rest
    else Round.again q rest)

unfoldable pub announce_event : List ℕ → Announcement → Round Announcement
announce_event s q = elim (scan_find_keywords keywords_announce_event scan_searchpath_value s) [
  | none ↦ Round.crash
  | some (v, rest) ↦ elim v [
    | negsuc n ↦ if n == 0 then Round.failed HttpError.error_400_param else Round.again q rest
    | pos n ↦
        Round.again
          (record q { flag = bit_or q.flag (if n == 1 then flag_completed else flag_stopped) }) rest
  ]
]

unfoldable pub announce_numwant : List ℕ → Announcement → Round Announcement
unfolding clamp_numwant
announce_numwant s q = with_number s (λ left n rest.
    if left == 0
    then Round.again (record q { numwant = clamp_numwant n }) rest
    else Round.failed HttpError.error_400_param)

unfoldable pub announce_compact : List ℕ → Announcement → Round Announcement
announce_compact s q = with_number s (λ left n rest.
    if left == 0
    then (if is_zero_int n then Round.failed HttpError.error_400_compact else Round.again q rest)
    else Round.failed HttpError.error_400_param)

unfoldable pub announce_hash : List ℕ → Announcement → Round Announcement
announce_hash s q =
    if is_some q.hash
    then Round.failed HttpError.error_400_param
    else with_hash s (λ out rest. Round.again (record q { hash = some out }) rest)

unfoldable pub announce_case : ℕ → List ℕ → Announcement → Round Announcement
unfolding announce_port announce_left announce_event announce_numwant announce_compact announce_hash
announce_case v s q =
    if v == 1
    then announce_port s q
    else if v == 2
    then announce_left s q
    else if v == 3
    then announce_event s q
    else if v == 4
    then announce_numwant s q
    else if v == 5
    then announce_compact s q
    else if v == 6
    then announce_hash s q
    else with_hash s (λ out rest. Round.again (record q { peer_id = some out }) rest)

unfoldable pub announce_round : List ℕ → Announcement → Round Announcement
unfolding announce_case on_keyword
announce_round s q = on_keyword keywords_announce announce_case s q

-- Each round but the last leaves fewer bytes, so as many rounds as bytes are enough.
unfoldable pub scan_announce : List ℕ → Scanned Announcement
unfolding query_loop announce_round
scan_announce s = query_loop announce_round (suc (length s)) s no_announcement

-- The hashes that a scrape asks for, in order. They are kept at the start of the request buffer, where
-- each takes less room than the parameter that it was read from.
unfoldable pub scrape_case : ℕ → List ℕ → List (List ℕ) → Round (List (List ℕ))
scrape_case v s hashes = with_hash s (λ out rest. Round.again (hashes ++ out ∷ []) rest)

unfoldable pub scrape_round : List ℕ → List (List ℕ) → Round (List (List ℕ))
unfolding scrape_case on_keyword
scrape_round s hashes = on_keyword keywords_scrape scrape_case s hashes

unfoldable pub scan_scrape : List ℕ → Scanned (List (List ℕ))
unfolding query_loop scrape_round
scan_scrape s = query_loop scrape_round (suc (length s)) s []

-- The mode and the format that a request for statistics asks for.
pub record Wanted : Type 0 where
  pub mode : ℕ
  pub format : ℕ

abbrev pub keywords_main : List Keyword
keywords_main = keyword (codes "mode") 1 ∷ keyword (codes "format") 2 ∷ []

abbrev pub keywords_mode : List Keyword
keywords_mode =
    keyword (codes "peer") 0x0102
    ∷ keyword (codes "conn") 0x0001
    ∷ keyword (codes "scrp") 0x0004
    ∷ keyword (codes "udp4") 0x0003
    ∷ keyword (codes "tcp4") 0x0002
    ∷ keyword (codes "busy") 0x0009
    ∷ keyword (codes "torr") 0x0101
    ∷ keyword (codes "fscr") 0x0005
    ∷ keyword (codes "s24s") 0x0103
    ∷ keyword (codes "tpbs") 0x0006
    ∷ keyword (codes "herr") 0x0007
    ∷ keyword (codes "completed") 0x000c
    ∷ keyword (codes "top100") 0x0105
    ∷ keyword (codes "top10") 0x0104
    ∷ keyword (codes "renew") 0x000a
    ∷ keyword (codes "syncs") 0x000b
    ∷ keyword (codes "version") 0x0008
    ∷ keyword (codes "everything") 0x0106
    ∷ keyword (codes "statedump") 0x0204
    ∷ keyword (codes "fulllog") 0x0107
    ∷ keyword (codes "woodpeckers") 0x0108
    ∷ []

abbrev pub keywords_format : List Keyword
keywords_format =
    keyword (codes "bin") 0x0201
    ∷ keyword (codes "ben") 0x0200
    ∷ keyword (codes "url") 0x0203
    ∷ keyword (codes "txt") 0x0202
    ∷ []

-- The value of a keyword; whatever is not positive is an error.
unfoldable pub stats_value : List Keyword → (ℕ → Wanted) → List ℕ → Round Wanted
stats_value keywords set_to s = elim (scan_find_keywords keywords scan_searchpath_value s) [
  | none ↦ Round.crash
  | some (v, rest) ↦ elim v [
    | negsuc n ↦ Round.failed HttpError.error_400_param
    | pos n ↦ if n == 0 then Round.failed HttpError.error_400_param else Round.again (set_to n) rest
  ]
]

unfoldable pub stats_case : ℕ → List ℕ → Wanted → Round Wanted
unfolding stats_value
stats_case v s w =
    if v == 1
    then stats_value keywords_mode (λ n. record w { mode = n }) s
    else stats_value keywords_format (λ n. record w { format = n }) s

unfoldable pub stats_round : List ℕ → Wanted → Round Wanted
unfolding stats_case on_keyword
stats_round s w = on_keyword keywords_main stats_case s w

unfoldable pub scan_stats : List ℕ → Scanned Wanted
unfolding query_loop stats_round
scan_stats s = query_loop stats_round (suc (length s)) s (record { mode = 0x0102; format = 0 })
