-- ===== src/Tests/Vectors.antt =====
-- The sorted array.
use tstracker.Base.{◌≤◌, ◌≡◌, refl, arith, false, some, memcmp}
use tstracker.Peer.{Peer, sizeof_peer}
use tstracker.Peers.{cmp_addr}
use tstracker.Vector.{Vector, binary_search, shrink_loop, vector_fixup_peers, vector_find_or_insert}
use tstracker.Vector.Search.{Finds, binary_search-locate}
use tstracker.Vector.Space.{Fits, is_slack, shrink_loop_lem}
use tstracker.Vector.Insert.{Outcome, vector_find_or_insert-Outcome}
use tstracker.Tests.{granted, granted-IsBounded, leecher, newcomer, two_peers, two_peers-VectorOk}

search_run : binary_search (cmp_addr leecher.addr) two_peers.items ≡ some (1, 2)
unfolding binary_search memcmp
search_run = refl

binary_search-locate_example :
    Finds
      (cmp_addr leecher.addr)
      two_peers.items
      (binary_search (cmp_addr leecher.addr) two_peers.items)
binary_search-locate_example =
    binary_search-locate Peer.addr leecher.addr two_peers.items two_peers-VectorOk.sorted
      (omega arith)

vector_find_or_insert-Outcome_example :
    Outcome Peer.addr newcomer sizeof_peer granted two_peers
      (vector_find_or_insert sizeof_peer (cmp_addr newcomer.addr) granted leecher two_peers)
vector_find_or_insert-Outcome_example =
    vector_find_or_insert-Outcome Peer.addr newcomer sizeof_peer granted two_peers leecher
      two_peers-VectorOk.sorted (omega arith) (omega arith) granted-IsBounded
      two_peers-VectorOk.fits (omega arith)

shrink_loop_lem_example :
    (2 ≤ shrink_loop 64 2 64)
    × (shrink_loop 64 2 64 ≤ 64)
    × (is_slack 2 (shrink_loop 64 2 64) ≡ false)
shrink_loop_lem_example = shrink_loop_lem 64 2 64 (omega arith) (omega arith)

-- Two peers in a block that once held sixteen.
abbrev roomy : Vector Peer
roomy = record two_peers { space = 16 }

fixup_run : vector_fixup_peers roomy ≡ record two_peers { space = 8 }
unfolding vector_fixup_peers
fixup_run = refl

roomy-Fits : Fits sizeof_peer roomy
roomy-Fits = record { within = omega arith; small = omega arith }
