-- ===== src/Tests/Scrapes.antt =====
-- A tracker with one torrent, scraped.
use tstracker.Base.{
  ℕ, zero, suc, ◌+◌, ◌*◌, ◌<◌, ◌≤◌, ◌≡◌, refl, arith, inl, inr, List, [], ◌∷◌, length,
  length-replicate, replicate, All, Option, some, ◌==◌, if◌then◌else◌, Bool-cases,
}
use tstracker.Base.Int.{pos}
use tstracker.Peerlist.{Peerlist}
use tstracker.Vector.{Vector}
use tstracker.Tracker.{Torrent}
use tstracker.Tracker.Bucket.{TorrentsOk}
use tstracker.Scrape.{AllTorrents, return_udp_scrape_for_torrent, return_tcp_scrape_for_torrent}
use tstracker.Scrape.All.{AllOk, IsHash, sizes}
use tstracker.Scrape.Replies.{
  MapStep, MapSteps, return_udp_scrape_for_torrent-MapStep, return_tcp_scrape_for_torrent-MapSteps,
}
use tstracker.Scrape.Text.{UdpTells, scrape_reply}
use tstracker.Udp.{scrape_loop}
use tstracker.Udp.Scrapes.{Answers, hashes_in, scrape_loop-Answers}
use tstracker.Worker.{clean_loop}
use tstracker.Worker.Swept.{LoopEnds, clean_loop-Swept}
use tstracker.Tests.{two_peer_list, two_peer_list-IsCounted, all_granted, granted-IsBounded}

-- The first bytes choose bucket 4.
abbrev pub hash : List ℕ
hash = 1 ∷ 2 ∷ replicate 18 7

abbrev no_torrents : Vector Torrent
no_torrents = record { items = []; space = 0 }

abbrev one_torrent : Vector Torrent
one_torrent = record { items = record { hash = hash; peer_list = two_peer_list } ∷ []; space = 1 }

abbrev pub tracker : AllTorrents
tracker = record { bucket = λ b. if b == 4 then one_torrent else no_torrents; torrent_count = 1 }

one_torrent-TorrentsOk : TorrentsOk one_torrent
one_torrent-TorrentsOk = record {
  sorted = (tt, tt);
  fits = record { within = omega arith; small = omega arith };
  counted = (two_peer_list-IsCounted, tt);
}

no_torrents-TorrentsOk : TorrentsOk no_torrents
no_torrents-TorrentsOk = record {
  sorted = tt;
  fits = record { within = omega arith; small = omega arith };
  counted = tt;
}

pub tracker-AllOk : AllOk tracker
unfolding sizes
tracker-AllOk = record {
  ordered = λ b. elim (Bool-cases (b == 4)) [
    | inl here ↦ rw here one_torrent-TorrentsOk
    | inr other ↦ rw other no_torrents-TorrentsOk
  ];
  few = λ b. elim (Bool-cases (b == 4)) [
    | inl here ↦ rw here (omega arith)
    | inr other ↦ rw other (omega arith)
  ];
  counted = refl;
}

pub replicate-bytes : (n b : ℕ) → b < 256 → All (λ b. b < 256) (replicate n b)
replicate-bytes zero b small = tt
replicate-bytes (suc n) b small = (small, replicate-bytes n b small)

pub hash-IsHash : IsHash hash
hash-IsHash = record {
  long = refl;
  bytes = (omega arith, (omega arith, replicate-bytes 18 7 (omega arith)));
}

return_udp_scrape_for_torrent-MapStep_example :
    (r : Option Peerlist) × (d : List ℕ) × (t : AllTorrents) × (return_udp_scrape_for_torrent
        all_granted
        (pos 110)
        hash
        tracker
      ≡ some (d, t))
    × MapStep (pos 110) hash tracker t r
    × UdpTells r d
return_udp_scrape_for_torrent-MapStep_example =
    return_udp_scrape_for_torrent-MapStep all_granted (λ i. granted-IsBounded) (pos 110) hash
      tracker hash-IsHash tracker-AllOk

return_tcp_scrape_for_torrent-MapSteps_example :
    (files : List (List ℕ × Peerlist)) × (t : AllTorrents) × (return_tcp_scrape_for_torrent
        all_granted
        (pos 110)
        (hash ∷ hash ∷ [])
        tracker
      ≡ some (scrape_reply files, t))
    × MapSteps all_granted (λ i. granted-IsBounded) (pos 110) (hash ∷ hash ∷ []) tracker files t
    × AllOk t
    × (length (scrape_reply files) ≤ 12 + 130 * 2)
return_tcp_scrape_for_torrent-MapSteps_example =
    return_tcp_scrape_for_torrent-MapSteps all_granted (λ i. granted-IsBounded) (pos 110)
      (hash ∷ hash ∷ []) tracker (hash-IsHash, (hash-IsHash, tt)) tracker-AllOk

-- A packet of 36 bytes asks for one hash.
abbrev inbuf : List ℕ
inbuf = replicate 1516 9

inbuf_long : 16 + 20 * 75 ≤ length inbuf
inbuf_long = omega (arith, length-replicate {A = ℕ} 1516 9)

scrape_loop-Answers_example :
    (entries : List ℕ) × (t : AllTorrents) × (scrape_loop all_granted
        (pos 110)
        inbuf
        36
        75
        0
        tracker
      ≡ some (entries, length (hashes_in inbuf 36 75 0), t))
    × Answers all_granted
        (λ i. granted-IsBounded)
        (pos 110)
        inbuf
        inbuf_long
        (replicate-bytes 1516 9 (omega arith))
        36
        (hashes_in inbuf 36 75 0)
        tracker
        entries
        t
    × AllOk t
    × (length entries ≡ 12 * length (hashes_in inbuf 36 75 0))
    × (8 + length entries ≤ 908)
scrape_loop-Answers_example =
    scrape_loop-Answers all_granted (λ i. granted-IsBounded) (pos 110) inbuf inbuf_long
      (replicate-bytes 1516 9 (omega arith)) 36 tracker tracker-AllOk

clean_loop-Swept_example :
    LoopEnds all_granted
      (λ i. granted-IsBounded)
      (pos 110)
      []
      one_torrent.items
      0
      (clean_loop all_granted (pos 110) 2 0 one_torrent (pos 0))
clean_loop-Swept_example =
    clean_loop-Swept all_granted (λ i. granted-IsBounded) (pos 110) one_torrent
      (two_peer_list-IsCounted, tt)
