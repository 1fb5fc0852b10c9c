-- ===== src/Stats/Counts.antt =====
-- The counters against the events: each counts what happened, since the start.
use tstracker.Base.{
  ℕ, zero, suc, ◌+◌, ◌^◌, ◌<◌, ◌≡◌, ◌∙◌, refl, inl, inr, Bool, true, false, Option, none, some,
  some-none, List, [], ◌∷◌, get_elem?, get_or, set, u64, arith, ◌==◌, ◌>>=◌, if◌then◌else◌,
  Option-cases,
}
use tstracker.Tracker.Response.{Proto}
use tstracker.Stats.{StatusEvent, Issued, Stats, bump_at, issue_event, issue_all}

-- The counters that go up by one.
pub data Counter : Type 0 where
  tcp_connections udp_connections tcp_announces udp_announces tcp_scrapes udp_scrapes : Counter
  missmatches tcp_connects udp_connects completed fullscrapes fullscrape_requests stalls : Counter
  http_errors renewals : ℕ → Counter

abbrev pub read_counter : Counter → Stats → ℕ
read_counter Counter.tcp_connections s = s.tcp_connections
read_counter Counter.udp_connections s = s.udp_connections
read_counter Counter.tcp_announces s = s.tcp_successfulannounces
read_counter Counter.udp_announces s = s.udp_successfulannounces
read_counter Counter.tcp_scrapes s = s.tcp_successfulscrapes
read_counter Counter.udp_scrapes s = s.udp_successfulscrapes
read_counter Counter.missmatches s = s.udp_connectionidmissmatches
read_counter Counter.tcp_connects s = s.tcp_connects
read_counter Counter.udp_connects s = s.udp_connects
read_counter Counter.completed s = s.overall_completed
read_counter Counter.fullscrapes s = s.full_scrape_count
read_counter Counter.fullscrape_requests s = s.full_scrape_request_count
read_counter Counter.stalls s = s.stall_count
read_counter (Counter.http_errors i) s = get_or s.failed_request_counts i 0
read_counter (Counter.renewals i) s = get_or s.renewed i 0

abbrev over_tcp : Proto → Bool
over_tcp Proto.tcp = true
over_tcp _ = false

abbrev not_over_tcp : Proto → Bool
not_over_tcp Proto.tcp = false
not_over_tcp _ = true

-- If an event is one of those a counter stands for. A scrape is counted as a full scrape too.
abbrev pub is_counted : Counter → StatusEvent → Proto → ℕ → Bool
is_counted Counter.tcp_connections StatusEvent.accept p n = over_tcp p
is_counted Counter.udp_connections StatusEvent.accept p n = not_over_tcp p
is_counted Counter.tcp_announces StatusEvent.announce p n = over_tcp p
is_counted Counter.udp_announces StatusEvent.announce p n = not_over_tcp p
is_counted Counter.tcp_scrapes StatusEvent.scrape p n = over_tcp p
is_counted Counter.udp_scrapes StatusEvent.scrape p n = not_over_tcp p
is_counted Counter.missmatches StatusEvent.connid_missmatch p n = true
is_counted Counter.tcp_connects StatusEvent.connect p n = over_tcp p
is_counted Counter.udp_connects StatusEvent.connect p n = not_over_tcp p
is_counted Counter.completed StatusEvent.completed p n = true
is_counted Counter.fullscrapes StatusEvent.scrape p n = true
is_counted Counter.fullscrapes StatusEvent.fullscrape p n = true
is_counted Counter.fullscrape_requests StatusEvent.fullscrape_request p n = true
is_counted Counter.fullscrape_requests StatusEvent.fullscrape_request_gzip p n = true
is_counted Counter.stalls StatusEvent.bucket_locked p n = true
is_counted (Counter.http_errors i) StatusEvent.failed p n = n == i
is_counted (Counter.renewals i) StatusEvent.renew p n = n == i
is_counted _ _ p n = false

abbrev pub add_if : Bool → ℕ → ℕ
add_if b n = if b then u64 (n + 1) else n

get_or-bump_at :
    (xs ys : List ℕ) (n i : ℕ)
    → bump_at xs n ≡ some ys
    → get_or ys i 0 ≡ add_if (n == i) (get_or xs i 0)
unfolding bump_at
get_or-bump_at [] ys n i e = cc
get_or-bump_at (x ∷ xs) ys zero zero e = ground arith
get_or-bump_at (x ∷ xs) ys zero (suc i) e = ground arith
get_or-bump_at (x ∷ xs) ys (suc n) zero e = elim (Option-cases (get_elem? xs n)) [
  | inl outside ↦ absurd (some-none (rw outside at e))
  | inr (y, there) ↦ ground (arith, rw there at e)
]
get_or-bump_at (x ∷ xs) ys (suc n) (suc i) e = elim (Option-cases (get_elem? xs n)) [
  | inl outside ↦ absurd (some-none (rw outside at e))
  | inr (y, there) ↦
      ground (arith, rw there at e, get_or-bump_at xs (set xs n (u64 (y + 1))) n i (rw there refl))
]

-- The array that an event counts in.
bump_at-some :
    (o : Option (List ℕ)) (f : List ℕ → Stats) (t : Stats)
    → (o >>= λ xs. some (f xs)) ≡ some t
    → (xs : List ℕ) × (o ≡ some xs) × (t ≡ f xs)
bump_at-some none f t e = cc
bump_at-some (some xs) f t e = (xs, refl, ground arith)

issue_event-add_if :
    (c : Counter) (v : StatusEvent) (p : Proto) (n : ℕ) (s t : Stats)
    → issue_event v p n s ≡ some t
    → read_counter c t ≡ add_if (is_counted c v p n) (read_counter c s)
unfolding issue_event
issue_event-add_if (Counter.http_errors i) StatusEvent.failed p n s t e =
    let (xs, b, same) =
      bump_at-some (bump_at s.failed_request_counts n)
        (λ xs. record s { failed_request_counts = xs }) t e in
    rw same (get_or-bump_at s.failed_request_counts xs n i b)
issue_event-add_if (Counter.renewals i) StatusEvent.renew p n s t e =
    let (xs, b, same) = bump_at-some (bump_at s.renewed n) (λ xs. record s { renewed = xs }) t e in
    rw same (get_or-bump_at s.renewed xs n i b)
issue_event-add_if c StatusEvent.failed p n s t e =
    let (xs, b, same) =
      bump_at-some (bump_at s.failed_request_counts n)
        (λ xs. record s { failed_request_counts = xs }) t e in
    rw same refl
issue_event-add_if c StatusEvent.renew p n s t e =
    let (xs, b, same) = bump_at-some (bump_at s.renewed n) (λ xs. record s { renewed = xs }) t e in
    rw same refl
issue_event-add_if c v p n s t e = ground arith

-- How many of the events a counter stands for.
abbrev pub occurrences : Counter → List Issued → ℕ
occurrences c [] = 0
occurrences c (e ∷ es) =
    if is_counted c e.event e.proto e.event_data then suc (occurrences c es) else occurrences c es

-- Whatever the order of the events, a counter below 2^64 has gone up by the number of them that it
-- stands for, modulo 2^64, if no event counts outside its array. The count of full scrapes stands
-- for every scrape besides.
pub issue_all-occurrences :
    (c : Counter) (es : List Issued) (s t : Stats)
    → read_counter c s < 2 ^ 64
    → issue_all es s ≡ some t
    → read_counter c t ≡ u64 (read_counter c s + occurrences c es)
unfolding issue_all
issue_all-occurrences c [] s t small e = ground (arith, small, e)
issue_all-occurrences c (e ∷ es) s t small f =
    elim (Option-cases (issue_event e.event e.proto e.event_data s)) [
      | inl outside ↦ absurd (some-none (rw outside at f))
      | inr (u, there) ↦
          let one = issue_event-add_if c e.event e.proto e.event_data s u there in
          let below : read_counter c u < 2 ^ 64 = rw one (ground arith) in
          issue_all-occurrences c es u t below (rw there at f) ∙ rw one (ground arith)
    ]
