-- ===== src/Peer.antt =====
-- include/opentracker/trackerlogic.h: the peer record, its flags, and the tracker's constants, in the
-- build without WANT_V6, so that a peer is 4 bytes of address, 2 of port, its flags and its age.
use tstracker.Base.{ℕ, ◌+◌, ◌*◌, Bool, not, List, [], ◌∷◌, ◌++◌, bit_and, ◌==◌}

pub record Peer : Type 0 where
  -- The OT_PEER_COMPARE_SIZE bytes that identify a peer.
  pub addr : List ℕ
  pub flag : ℕ
  pub time : ℕ

abbrev pub ip_size : ℕ
ip_size = 4

abbrev pub peer_compare_size : ℕ
peer_compare_size = ip_size + 2

abbrev pub sizeof_peer : ℕ
sizeof_peer = 8

abbrev pub flag_seeding : ℕ
flag_seeding = 0x80

abbrev pub flag_completed : ℕ
flag_completed = 0x40

abbrev pub flag_stopped : ℕ
flag_stopped = 0x20

abbrev pub has_flag : ℕ → ℕ → Bool
has_flag flags f = not (bit_and flags f == 0)

abbrev pub is_seeding : Peer → Bool
is_seeding p = has_flag p.flag flag_seeding

abbrev pub peer_timeout : ℕ
peer_timeout = 45

abbrev pub torrent_timeout : ℕ
torrent_timeout = 60 * 24

abbrev pub peer_bucket_mincount : ℕ
peer_bucket_mincount = 512

-- The bytes of the record.
abbrev pub bytes : Peer → List ℕ
bytes p = p.addr ++ p.flag ∷ p.time ∷ []
