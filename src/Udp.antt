-- ===== src/Udp.antt =====
-- src/opentracker/ot_udp.c: a packet is answered by at most one packet. What the outside decides is
-- a parameter: the cipher, the clock, `random()`, and what a buffer holds that was not received.
pub mod Guard
pub mod Scrapes
use tstracker.Base.{
  ℕ, zero, suc, ◌+◌, ◌-◌, ◌*◌, ◌≤◌, Bool, true, false, not, ◌&&◌, ◌||◌, Option, none, some, List,
  [], ◌∷◌, ◌++◌, length, take, drop, map, replicate, bit_xor, bit_or, Ordering, memcmp, ltb, leb,
  ◌==◌, if◌then◌else◌, ◌>>=◌, codes, htonl, ntohl,
}
use tstracker.Base.Int.{ℤ, pos, ◌+ℤ◌, ltb_ℤ}
use tstracker.Peer.{Peer, flag_seeding, flag_completed, flag_stopped, has_flag}
use tstracker.Peers.Redistribute.{Memory}
use tstracker.Tracker.{Host, Event}
use tstracker.Tracker.Response.{Proto, udp, Draws}
use tstracker.Scrape.{AllTorrents, return_udp_scrape_for_torrent}
use tstracker.Stats.{StatusEvent, Issued}
use tstracker.Service.{Served, add_peer_to_torrent_and_return_peers, remove_peer}

-- `g_key_of_the_hour` and `g_hour_of_the_key`.
pub record Keys : Type 0 where
  pub current : ℕ
  pub previous : ℕ
  pub hour_of_the_key : ℤ

abbrev pub xor_bytes : List ℕ → List ℕ → List ℕ
xor_bytes [] ys = []
xor_bytes (x ∷ xs) [] = []
xor_bytes (x ∷ xs) (y ∷ ys) = bit_xor x y ∷ xor_bytes xs ys

-- A new key for each hour, by the test that the code has.
unfoldable pub renew_key : ℤ → ℕ → Keys → Keys
renew_key now drawn k =
    if ltb_ℤ k.hour_of_the_key (now +ℤ pos 60)
    then record { current = drawn; previous = k.current; hour_of_the_key = now }
    else k

-- The 8 bytes of the id, of the 16 that the cipher makes of the address. The address mixed with a key
-- of the hour is computed beside it and not read: the id is the same for the key of the hour before,
-- and where the first of the two tests of an id fails the second fails too.
unfoldable pub udp_make_connectionid : (List ℕ → List ℕ) → List ℕ → List ℕ
udp_make_connectionid cipher ip =
    let crypt = cipher ip in
    xor_bytes (take 4 crypt) (take 4 (drop 4 crypt))
    ++ xor_bytes (take 4 (drop 8 crypt)) (take 4 (drop 12 crypt))

abbrev pub same_bytes : List ℕ → List ℕ → Bool
same_bytes xs ys = elim (memcmp xs ys) [ Ordering.eq ↦ true | _ ↦ false ]

-- The outside of one call.
pub record World : Type 0 where
  pub cipher : List ℕ → List ℕ
  pub drawn_keys : ℕ × ℕ
  pub host : Host
  pub draws : Draws
  pub stale : List ℕ  -- what the buffer holds behind the packet

pub record Packet : Type 0 where
  pub bytes : List ℕ
  pub remoteip : List ℕ  -- 16 bytes
  pub remoteport : ℕ

-- What a call does: the packet sent back to where the one received came from, the events in order,
-- the keys, and the torrents.
pub record Reaction : Type 0 where
  pub sent : Option (List ℕ)
  pub issued : List Issued
  pub told : List Event
  pub keys : Keys
  pub torrents : AllTorrents

abbrev pub event_of : StatusEvent → ℕ → Issued
event_of e n = record { event = e; proto = Proto.udp; event_data = n }

-- The words of the packet, as they lie in memory.
abbrev pub word_at : List ℕ → ℕ → List ℕ
word_at inbuf i = take 4 (drop i inbuf)

abbrev pub is_zero_word : List ℕ → Bool
is_zero_word w = same_bytes w (replicate 4 0)

abbrev pub mismatch_text : List ℕ
mismatch_text = codes "Connection ID missmatch." ++ 0 ∷ []

-- `outpacket[0] = 3` is not converted, unlike the other actions.
abbrev pub mismatch_packet : List ℕ → List ℕ
mismatch_packet transaction = 3 ∷ 0 ∷ 0 ∷ 0 ∷ transaction ++ mismatch_text

unfoldable pub announced_flag : List ℕ → ℕ
announced_flag inbuf =
    let left = not (is_zero_word (word_at inbuf 64)) || not (is_zero_word (word_at inbuf 68)) in
    let event = ntohl (word_at inbuf 80) in
    let flag = if event == 1 then flag_completed else if event == 3 then flag_stopped else 0 in
    if left then flag else bit_or flag flag_seeding

-- The byte of the age is what the last request left there, and set before it is read.
unfoldable pub announced_peer : List ℕ → List ℕ → Peer
unfolding announced_flag
announced_peer ip inbuf = record {
  addr = drop 12 ip ++ take 2 (drop 96 inbuf);
  flag = announced_flag inbuf;
  time = 0;
}

unfoldable pub announced_numwant : List ℕ → ℕ
announced_numwant inbuf = let n = ntohl (word_at inbuf 92) in if ltb 200 n then 200 else n

-- The two words that an announce or scrape reply begins with.
abbrev pub reply_words : ℕ → List ℕ → List ℕ
reply_words action inbuf = htonl action ++ word_at inbuf 12

-- The reply and its size, for a packet of at least 98 bytes. The reply of a removal is written from
-- the third word of the buffer on, and over UDP there is always one.
unfoldable pub announce : World → List ℕ → List ℕ → AllTorrents → Option Served
unfolding announced_peer announced_numwant
announce w ip inbuf s =
    let peer = announced_peer ip inbuf in
    let hash = take 20 (drop 16 inbuf) in
    let head = reply_words 1 inbuf in
    let leave = remove_peer w.draws Proto.udp hash peer s >>= λ (r, t).
    r >>= λ body. some (record { reply = head ++ body; torrents = t; events = [] }) in
    let enter =
      add_peer_to_torrent_and_return_peers w.host w.draws Proto.udp hash peer
        (announced_numwant inbuf) s
      >>= λ a. some (record a { reply = head ++ a.reply }) in
    if has_flag peer.flag flag_stopped then leave else enter

-- The loop over the hashes: `n` of them are left at most, from the one at `scrape_count` on.
unfoldable pub scrape_loop :
    Memory → ℤ → List ℕ → ℕ → ℕ → ℕ → AllTorrents → Option (List ℕ × ℕ × AllTorrents)
scrape_loop mem now inbuf byte_count zero scrape_count s = some ([], scrape_count, s)
scrape_loop mem now inbuf byte_count (suc n) scrape_count s =
    let more =
      return_udp_scrape_for_torrent mem now (take 20 (drop (16 + 20 * scrape_count) inbuf)) s
      >>= λ (entry, t).
          scrape_loop mem now inbuf byte_count n (suc scrape_count) t >>= λ (rest, count, u).
          some (entry ++ rest, count, u) in
    if ltb (scrape_count * 20) (byte_count - 16) then more else some ([], scrape_count, s)

-- The switch over the action. Some packets are not answered.
unfoldable pub handle_action : World → List ℕ → List ℕ → ℕ → ℕ → Reaction → Option Reaction
unfolding announce scrape_loop
handle_action w ip inbuf byte_count action r =
    let connid = udp_make_connectionid w.cipher ip in
    let connect = record r {
      sent = some (replicate 4 0 ++ word_at inbuf 12 ++ connid);
      issued = r.issued ++ event_of StatusEvent.connect 16 ∷ [];
    } in
    let announced = announce w ip inbuf r.torrents >>= λ a. some (record r {
      sent = some a.reply;
      issued = r.issued ++ event_of StatusEvent.announce (length a.reply) ∷ [];
      told = a.events;
      torrents = a.torrents;
    }) in
    let scraped =
      scrape_loop w.host.memory w.host.now_minutes inbuf byte_count 75 0 r.torrents
      >>= λ (entries, count, t). some (record r {
        sent = some (reply_words 2 inbuf ++ entries);
        issued = r.issued ++ event_of StatusEvent.scrape count ∷ [];
        torrents = t;
      }) in
    if action == 0
    then (if (ntohl (word_at inbuf 0) == 0x417) && (ntohl (word_at inbuf 4) == 0x27101980)
        then some connect
        else some r)
    else if action == 1
    then (if ltb byte_count 98 then some r else announced)
    else if action == 2
    then scraped
    else some r

-- `handle_udp6`, for a packet that was received.
unfoldable pub handle_udp6 : World → Packet → Keys → AllTorrents → Option Reaction
unfolding handle_action
handle_udp6 w p keys s =
    let byte_count = length p.bytes in
    let inbuf = p.bytes ++ w.stale in
    let now = w.host.now_minutes in
    let first = renew_key now w.drawn_keys.0 keys in
    let second = renew_key now w.drawn_keys.1 first in
    let connid = udp_make_connectionid w.cipher p.remoteip in
    let seen = event_of StatusEvent.accept 0 ∷ event_of StatusEvent.read byte_count ∷ [] in
    let ignored : Reaction = record {
      sent = none;
      issued = seen;
      told = [];
      keys = keys;
      torrents = s;
    } in
    let known = same_bytes (take 8 inbuf) connid in
    let refused : Reaction = record ignored {
      sent = some (mismatch_packet (word_at inbuf 12));
      issued =
          seen
          ++ event_of StatusEvent.connid_missmatch (length (mismatch_packet (word_at inbuf 12)))
            ∷ [];
      keys = second;
    } in
    let handled =
      handle_action w p.remoteip inbuf byte_count (ntohl (word_at inbuf 8))
        (record ignored { keys = first }) in
    if byte_count == 0
    then some (record ignored { issued = [] })
    else if ltb byte_count 16
    then some ignored
    else if not (is_zero_word (word_at inbuf 8)) && not known
    then some refused
    else handled
