-- ===== src/Scrape/Text.antt =====
-- What the replies to a scrape look like: words in network byte order over UDP, and bencoded text
-- over TCP. Both are described apart from the code that prints them.
use tstracker.Base.{
  ℕ, ◌+◌, ◌-◌, ◌%◌, ◌^◌, ◌≤◌, ◌≡◌, refl, Option, none, some, List, [], ◌∷◌, ◌++◌, length, take,
  drop, replicate, arith, codes, dec, dec_loop, zd, htonl, ntohl, append_assoc, sub64_exact,
}
use tstracker.Peerlist.{Peerlist, IsCounted}
use tstracker.Clean.Sweep.{total-seeds-le}
use tstracker.Tracker.Response.{leech_count}
use tstracker.Scrape.{udp_entry, tcp_entry}

-- 12 zero bytes where nothing is told, and else the numbers of seeds, of downloads in 32 bits, and
-- of the other peers.
abbrev pub UdpTells : Option Peerlist → List ℕ → Type 0
UdpTells none d = d ≡ replicate 12 0
UdpTells (some l) d =
    (length d ≡ 12)
    × (ntohl (take 4 d) ≡ l.seed_count)
    × (ntohl (take 4 (drop 4 d)) ≡ l.down_count % 2 ^ 32)
    × (ntohl (take 4 (drop 8 d)) + l.seed_count ≡ l.peer_count)

-- The counters of what is told are right.
abbrev pub CountedOr : Option Peerlist → Type 0
CountedOr none = Unit
CountedOr (some l) = IsCounted l

seeds_among :
    (l : Peerlist)
    → IsCounted l
    → (l.seed_count ≤ l.peer_count) × (leech_count l + l.seed_count ≡ l.peer_count)
seeds_among l c =
    let le : l.seed_count ≤ l.peer_count =
      omega (arith, total-seeds-le l.peers, c.peers_right, c.seeds_right) in
    (le, omega (arith, le, sub64_exact l.peer_count l.seed_count le (omega (arith, c.few))))

pub udp_entry-UdpTells : (r : Option Peerlist) → CountedOr r → UdpTells r (udp_entry r)
unfolding udp_entry htonl ntohl
udp_entry-UdpTells none c = refl
udp_entry-UdpTells (some l) c =
    let (le, rest) = seeds_among l c in
    (refl, omega (arith, le, c.few), omega arith, omega (arith, rest, c.few))

-- Bencoding, with `%zd` for the numbers: the length of a string and the string, an integer between
-- `i` and `e`, and between `d` and `e` a dictionary, as its keys and encoded values in order.
abbrev pub bencoded_string : List ℕ → List ℕ
bencoded_string s = dec (length s) ++ codes ":" ++ s

abbrev pub bencoded_integer : ℕ → List ℕ
bencoded_integer n = codes "i" ++ zd n ++ codes "e"

abbrev bencoded_items : List (List ℕ × List ℕ) → List ℕ
bencoded_items [] = []
bencoded_items ((key, value) ∷ items) = bencoded_string key ++ value ++ bencoded_items items

abbrev pub bencoded_dictionary : List (List ℕ × List ℕ) → List ℕ
bencoded_dictionary items = codes "d" ++ bencoded_items items ++ codes "e"

-- The counters that are told of a torrent: its seeds, its downloads, and its other peers.
abbrev pub file_counters : Peerlist → List ℕ
file_counters l = bencoded_dictionary (
    (codes "complete", bencoded_integer l.seed_count)
    ∷ (codes "downloaded", bencoded_integer l.down_count)
    ∷ (codes "incomplete", bencoded_integer (l.peer_count - l.seed_count))
    ∷ [])

abbrev pub files_of : List (List ℕ × Peerlist) → List (List ℕ × List ℕ)
files_of [] = []
files_of ((hash, l) ∷ files) = (hash, file_counters l) ∷ files_of files

-- The reply to a scrape: the counters of each file under its hash.
abbrev pub scrape_reply : List (List ℕ × Peerlist) → List ℕ
scrape_reply files =
    bencoded_dictionary ((codes "files", bencoded_dictionary (files_of files)) ∷ [])

abbrev pub with_file :
    List ℕ → Option Peerlist → List (List ℕ × Peerlist) → List (List ℕ × Peerlist)
with_file hash none files = files
with_file hash (some l) files = (hash, l) ∷ files

-- The entries of the files, as they are printed one after the other.
abbrev pub entries_of : List (List ℕ × Peerlist) → List ℕ
entries_of files = bencoded_items (files_of files)

pub tcp_entry-entries :
    (hash : List ℕ) (r : Option Peerlist) (files : List (List ℕ × Peerlist))
    → length hash ≡ 20
    → CountedOr r
    → tcp_entry hash r ++ entries_of files ≡ entries_of (with_file hash r files)
unfolding tcp_entry dec dec_loop
tcp_entry-entries hash none files long c = refl
tcp_entry-entries hash (some l) files long c =
    let (le, rest) = seeds_among l c in
    let others : leech_count l ≡ l.peer_count - l.seed_count = omega (arith, rest) in
    rw (long, others) (simp append_assoc refl)

pub scrape_reply-entries :
    (files : List (List ℕ × Peerlist))
    → codes "d5:filesd" ++ entries_of files ++ codes "ee" ≡ scrape_reply files
unfolding dec dec_loop
scrape_reply-entries files = simp append_assoc refl
