-- ===== src/Tests/Lists.antt =====
-- The peers of one torrent.
use tstracker.Base.{ℕ, List, ◌+◌, ◌^◌, ◌<◌, ◌≡◌, refl, arith, [], ◌∷◌, length}
use tstracker.Base.Int.{◌+ℤ◌, pos}
use tstracker.Peers.{plain, vector_find_or_insert_peer, vector_remove_peer}
use tstracker.Peers.Spread.{total, one}
use tstracker.Peers.Update.{WrittenOr, vector_find_or_insert_peer-Written}
use tstracker.Peers.Removal.{RemovedOr, vector_remove_peer-Removed}
use tstracker.Peers.Redistribute.{vector_redistribute_buckets}
use tstracker.Peers.Redistribute.Kept.{KeptOr, vector_redistribute_buckets-Kept}
use tstracker.Clean.{age_loop, is_fresh, aged, copy_loop, clean_single_bucket, clean_single_torrent}
use tstracker.Clean.Survivors.{survivors, clean_single_bucket-survivors}
use tstracker.Vector.Weight.{sum_by}
use tstracker.Peerlist.{seeds}
use tstracker.Clean.Torrent.{Outcome, clean_single_torrent-Outcome}
use tstracker.Tracker.{add_seedbanks, announce_peer}
use tstracker.Tracker.Announce.{StoresOr, announce_peer-Stores}
use tstracker.Tracker.Seedbanks.{JoinedOr, add_seedbanks-Joined}
use tstracker.Peers.Redistribute.{vectors, members}
use tstracker.Tracker.Reply.{
  leeching_addrs, seeding_addrs, return_peers_all, return_peers_all-addrs,
}
use tstracker.Tests.{
  granted, granted-IsBounded, seeder, leecher, newcomer, two_peers, two_peers-VectorOk,
  two_peer_list, two_peer_list-IsCounted, all_granted,
}

two_few : total one (plain two_peers) < 2 ^ 32
unfolding total
two_few = omega arith

two_small : total one (plain two_peers) < 2 ^ 31
unfolding total
two_small = omega arith

vector_find_or_insert_peer-Written_example :
    WrittenOr newcomer granted
      (plain two_peers)
      (vector_find_or_insert_peer granted leecher newcomer.addr (plain two_peers))
vector_find_or_insert_peer-Written_example =
    vector_find_or_insert_peer-Written newcomer leecher granted granted-IsBounded (plain two_peers)
      two_peers-VectorOk two_few

vector_remove_peer-Removed_example :
    RemovedOr seeder.addr (plain two_peers) (vector_remove_peer seeder.addr (plain two_peers))
vector_remove_peer-Removed_example =
    vector_remove_peer-Removed seeder.addr (plain two_peers) two_peers-VectorOk two_few

-- As for a torrent that is said to have 600 peers: sixteen buckets.
vector_redistribute_buckets-Kept_example :
    KeptOr (plain two_peers) (vector_redistribute_buckets all_granted 600 (plain two_peers))
vector_redistribute_buckets-Kept_example =
    vector_redistribute_buckets-Kept all_granted (λ i. granted-IsBounded) 600 (plain two_peers)
      two_peers-VectorOk two_small

-- Ten minutes later one of the two has timed out.
clean_run : (clean_single_bucket (pos 10) two_peers.items).kept ≡ record seeder { time = 13 } ∷ []
unfolding clean_single_bucket age_loop is_fresh aged copy_loop ◌+ℤ◌
clean_run = refl

clean_single_bucket-survivors_example :
    ((clean_single_bucket (pos 10) two_peers.items).kept ≡ survivors (pos 10) two_peers.items)
    × (length (survivors (pos 10) two_peers.items)
          + (clean_single_bucket (pos 10) two_peers.items).removed
        ≡ 2)
    × (sum_by seeds (survivors (pos 10) two_peers.items)
          + (clean_single_bucket (pos 10) two_peers.items).removed_seeders
        ≡ 1)
clean_single_bucket-survivors_example = clean_single_bucket-survivors (pos 10) two_peers.items

clean_single_torrent-Outcome_example :
    Outcome all_granted
      (λ i. granted-IsBounded)
      two_peer_list
      (pos 110)
      two_peer_list-IsCounted
      (clean_single_torrent all_granted (pos 110) two_peer_list)
clean_single_torrent-Outcome_example =
    clean_single_torrent-Outcome all_granted (λ i. granted-IsBounded) two_peer_list (pos 110)
      two_peer_list-IsCounted

announce_peer-Stores_example :
    StoresOr granted two_peer_list newcomer (announce_peer granted leecher newcomer two_peer_list)
announce_peer-Stores_example =
    announce_peer-Stores two_peer_list newcomer two_peer_list-IsCounted (omega arith) (omega arith)
      granted leecher granted-IsBounded

add_seedbanks-Joined_example :
    JoinedOr 1 two_peer_list
      (add_seedbanks (λ k. granted) leecher 0 (newcomer.addr ∷ []) two_peer_list)
add_seedbanks-Joined_example =
    add_seedbanks-Joined (λ k. granted) (λ k. granted-IsBounded) leecher 0 (newcomer.addr ∷ [])
      two_peer_list two_peer_list-IsCounted (omega arith)

abbrev two_back : List ℕ
two_back = seeding_addrs (members (vectors two_peer_list.peers))

abbrev two_front : List ℕ
two_front = leeching_addrs (members (vectors two_peer_list.peers))

return_peers_all-addrs_example :
    (return_peers_all two_peer_list ≡ (12, record { front = two_front; back = two_back }))
    × (length two_front + length two_back ≡ 12)
    × (length two_back ≡ 6)
return_peers_all-addrs_example =
    return_peers_all-addrs two_peer_list two_peer_list-IsCounted (refl, (refl, tt))
