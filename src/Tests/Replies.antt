-- ===== src/Tests/Replies.antt =====
-- Replies compiled from a list of peers, and numbers read from a request.
use tstracker.Base.{◌≡◌, refl, arith, ◌∷◌, some, dec}
use tstracker.Base.Int.{pos, ◌-ℤ◌}
use tstracker.Tracker.Select.{return_peers_selection}
use tstracker.Tracker.Select.Picks.{Selected, return_peers_selection-Selected}
use tstracker.Tracker.Response.{Proto, Draws, return_peers_for_torrent}
use tstracker.Tracker.Response.Filled.{Replied, return_peers_for_torrent-Replied}
use tstracker.Scan.Fixed.{scan_fixed_int, scan_fixed_int-dec}
use tstracker.Tests.{two_peer_list, two_peer_list-IsCounted}

abbrev draws : Draws
draws = record { interval = 77; selection = λ n. n }

return_peers_selection-Selected_example :
    Selected two_peer_list 1 (return_peers_selection (λ n. n) two_peer_list 1)
return_peers_selection-Selected_example =
    return_peers_selection-Selected (λ n. n) two_peer_list 1 two_peer_list-IsCounted (omega arith)
      (omega arith) (omega arith)

return_peers_for_torrent-Replied_example :
    Replied draws two_peer_list 50 Proto.udp
      (return_peers_for_torrent draws two_peer_list 50 Proto.udp)
return_peers_for_torrent-Replied_example =
    return_peers_for_torrent-Replied draws two_peer_list 50 Proto.udp two_peer_list-IsCounted
      (refl, (refl, tt)) (omega arith)

scan_fixed_int-dec_example :
    (scan_fixed_int (dec 6881) ≡ some (0, pos 6881))
    × (scan_fixed_int (45 ∷ dec 6881) ≡ some (0, pos 0 -ℤ pos 6881))
scan_fixed_int-dec_example = scan_fixed_int-dec 6881 (omega arith)
