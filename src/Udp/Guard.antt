-- ===== src/Udp/Guard.antt =====
-- The connection id guards the torrents: `handle_udp6` before it looks at the action.
use tstracker.Base.{
  ℕ, zero, suc, ◌+◌, ◌≤◌, ◌&&◌, drop, codes, memcmp_self, if◌then◌else◌, ◌<◌, ◌≡◌, ◌≢◌, ◌∙◌, refl,
  sym, ap, inl, inr, Bool, true, false, Option, none, some, List, [], ◌∷◌, ◌++◌, length, take,
  replicate, arith, ltb, ◌==◌, Bool-cases, some_same, ntohl, memcmp→eq,
}
use tstracker.Scrape.{AllTorrents}
use tstracker.Stats.{StatusEvent}
use tstracker.Udp.{
  Keys, World, Packet, Reaction, udp_make_connectionid, same_bytes, is_zero_word, word_at,
  mismatch_text, event_of, renew_key, handle_action, handle_udp6,
}

-- What lies in the input buffer.
abbrev pub inbuf_of : World → Packet → List ℕ
inbuf_of w p = p.bytes ++ w.stale

-- If the packet has the connection id of the address it came from.
abbrev pub has_connid : World → Packet → Bool
has_connid w p = same_bytes (take 8 (inbuf_of w p)) (udp_make_connectionid w.cipher p.remoteip)

-- The word of the action.
abbrev pub action_bytes : Packet → List ℕ
action_bytes p = take 4 (drop 8 p.bytes)

-- What a connect reply and the error reply are: words of 4 bytes, and what follows.
pub record IsReply (first transaction rest d : List ℕ) : Type 0 where
  pub action : take 4 d ≡ first
  pub answers : take 4 (drop 4 d) ≡ transaction
  pub body : drop 8 d ≡ rest

abbrev pub transaction_of : Packet → List ℕ
transaction_of p = take 4 (drop 12 p.bytes)

-- The 64 bit number 0x41727101980 that a connect packet begins with.
abbrev pub has_protocol_id : Packet → Bool
has_protocol_id p =
    (ntohl (take 4 p.bytes) == 0x417) && (ntohl (take 4 (drop 4 p.bytes)) == 0x27101980)

-- How the call ends, or the action it goes on with. No two of the conditions can both hold.
pub data Guarded (w : World) (p : Packet) (s : AllTorrents) (o : Option Reaction) : Type 0 where
  ignored :
      (r : Reaction)
      → length p.bytes < 16
      → o ≡ some r
      → (r.sent ≡ none) × (r.torrents ≡ s)
      → Guarded w p s o
  refused :
      (r : Reaction) (d : List ℕ)
      → 16 ≤ length p.bytes
      → action_bytes p ≢ replicate 4 0
      → take 8 p.bytes ≢ udp_make_connectionid w.cipher p.remoteip
      → o ≡ some r
      → (r.sent ≡ some d) × (r.torrents ≡ s)
      → IsReply
          (3 ∷ 0 ∷ 0 ∷ 0 ∷ [])
          (transaction_of p)
          (codes "Connection ID missmatch." ++ 0 ∷ [])
          d
      → Guarded w p s o
  connected :
      (r : Reaction) (d : List ℕ)
      → 16 ≤ length p.bytes
      → action_bytes p ≡ replicate 4 0
      → o ≡ some r
      → (r.sent ≡ (if has_protocol_id p then some d else none)) × (r.torrents ≡ s)
      → IsReply (replicate 4 0) (transaction_of p) (udp_make_connectionid w.cipher p.remoteip) d
      → Guarded w p s o
  served :
      (r : Reaction)
      → 16 ≤ length p.bytes
      → action_bytes p ≢ replicate 4 0
      → take 8 p.bytes ≡ udp_make_connectionid w.cipher p.remoteip
      → (r.sent ≡ none) × (r.torrents ≡ s)
      → o ≡ handle_action w p.remoteip (inbuf_of w p) (length p.bytes) (ntohl (action_bytes p)) r
      → Guarded w p s o

same_bytes-true : (xs ys : List ℕ) → same_bytes xs ys ≡ true → xs ≡ ys
same_bytes-true xs ys e = memcmp→eq xs ys (ground arith)

same_bytes_self : (xs : List ℕ) → same_bytes xs xs ≡ true
same_bytes_self xs = ground (arith, memcmp_self xs)

same_bytes-false : (xs ys : List ℕ) → same_bytes xs ys ≡ false → xs ≢ ys
same_bytes-false xs ys e same = cc (e, ap (λ z. same_bytes z ys) same, same_bytes_self ys)

take-drop-append :
    (n k : ℕ) (xs ys : List ℕ) → k + n ≤ length xs → take n (drop k (xs ++ ys)) ≡ take n (drop k xs)
take-drop-append zero k xs ys h = refl
take-drop-append (suc n) zero [] ys h = absurd (omega (arith, h))
take-drop-append (suc n) zero (x ∷ xs) ys h =
    ap (◌∷◌ x) (take-drop-append n zero xs ys (omega (arith, h)))
take-drop-append (suc n) (suc k) [] ys h = absurd (omega (arith, h))
take-drop-append (suc n) (suc k) (x ∷ xs) ys h = take-drop-append (suc n) k xs ys (omega (arith, h))

drop-length_of : (n : ℕ) (xs ys : List ℕ) → length xs ≡ n → drop n (xs ++ ys) ≡ ys
drop-length_of zero [] ys e = refl
drop-length_of zero (x ∷ xs) ys e = absurd (omega (arith, e))
drop-length_of (suc n) [] ys e = absurd (omega (arith, e))
drop-length_of (suc n) (x ∷ xs) ys e = drop-length_of n xs ys (omega (arith, e))

take-length_of : (n : ℕ) (xs ys : List ℕ) → length xs ≡ n → take n (xs ++ ys) ≡ xs
take-length_of zero [] ys e = refl
take-length_of zero (x ∷ xs) ys e = absurd (omega (arith, e))
take-length_of (suc n) [] ys e = absurd (omega (arith, e))
take-length_of (suc n) (x ∷ xs) ys e = ap (◌∷◌ x) (take-length_of n xs ys (omega (arith, e)))

length-take-drop : (n k : ℕ) (xs : List ℕ) → k + n ≤ length xs → length (take n (drop k xs)) ≡ n
length-take-drop zero k xs h = refl
length-take-drop (suc n) zero [] h = absurd (omega (arith, h))
length-take-drop (suc n) zero (x ∷ xs) h = ap suc (length-take-drop n zero xs (omega (arith, h)))
length-take-drop (suc n) (suc k) [] h = absurd (omega (arith, h))
length-take-drop (suc n) (suc k) (x ∷ xs) h = length-take-drop (suc n) k xs (omega (arith, h))

IsReply-of :
    (a b c d : ℕ) (transaction word rest : List ℕ)
    → word ≡ transaction
    → length transaction ≡ 4
    → IsReply (a ∷ b ∷ c ∷ d ∷ []) transaction rest (a ∷ b ∷ c ∷ d ∷ word ++ rest)
IsReply-of a b c d transaction word rest same e =
    let n : length word ≡ 4 = ap length same ∙ e in
    record {
      action = refl;
      answers = take-length_of 4 word rest n ∙ same;
      body = drop-length_of 4 word rest n;
    }

module _ (w : World) (p : Packet) (keys : Keys) (s : AllTorrents) (long : 16 ≤ length p.bytes) where
  -- The call as it looks at the action.
  abbrev begun : Reaction
  begun = record {
    sent = none;
    issued = event_of StatusEvent.accept 0 ∷ event_of StatusEvent.read (length p.bytes) ∷ [];
    told = [];
    keys = renew_key w.host.now_minutes w.drawn_keys.0 keys;
    torrents = s;
  }

  word : (k : ℕ) → k ≤ 12 → word_at (inbuf_of w p) k ≡ take 4 (drop k p.bytes)
  word k h = take-drop-append 4 k p.bytes w.stale (omega (arith, h, long))

  four : length (transaction_of p) ≡ 4
  four = length-take-drop 4 12 p.bytes (omega (arith, long))

  first_eight : take 8 (inbuf_of w p) ≡ take 8 p.bytes
  first_eight = take-drop-append 8 0 p.bytes w.stale (omega (arith, long))

  connect-Guarded :
      word_at (inbuf_of w p) 8 ≡ replicate 4 0
      → Guarded w p s (
          handle_action w p.remoteip
            (inbuf_of w p)
            (length p.bytes)
            (ntohl (word_at (inbuf_of w p) 8))
            begun)
  unfolding handle_action ntohl
  connect-Guarded connect =
      let zeros = sym (word 8 (omega arith)) ∙ connect in
      let reply =
        IsReply-of 0 0 0 0 (transaction_of p) (word_at (inbuf_of w p) 12)
          (udp_make_connectionid w.cipher p.remoteip) (word 12 (omega arith)) four in
      rw (connect, word 0 (omega arith), word 4 (omega arith))
        (elim (Bool-cases (has_protocol_id p)) [
          | inl right ↦ rw right (connected _ _ long zeros refl (rw right refl, refl) reply)
          | inr wrong ↦ rw wrong (connected _ _ long zeros refl (rw wrong refl, refl) reply)
        ])

  long-Guarded : Guarded w p s (handle_udp6 w p keys s)
  unfolding handle_udp6
  long-Guarded =
      let some_bytes : (length p.bytes == 0) ≡ false = ground (arith, long) in
      let enough : ltb (length p.bytes) 16 ≡ false = ground (arith, long) in
      let eight = word 8 (omega arith) in
      rw (some_bytes, enough)
        (elim (Bool-cases (is_zero_word (word_at (inbuf_of w p) 8))) [
          | inl connect ↦ rw connect (connect-Guarded (same_bytes-true _ _ connect))
          | inr other ↦ rw other (elim (Bool-cases (has_connid w p)) [
            | inl known ↦ rw known (
                served begun long (λ z. same_bytes-false _ _ other (eight ∙ z))
                  (sym first_eight ∙ same_bytes-true _ _ known) (refl, refl)
                  (ap
                    (λ b.
                      handle_action w p.remoteip (inbuf_of w p) (length p.bytes) (ntohl b) begun)
                    eight))
            | inr unknown ↦ rw unknown (
                refused _ _ long (λ z. same_bytes-false _ _ other (eight ∙ z))
                  (λ z. same_bytes-false _ _ unknown (first_eight ∙ z)) refl (refl, refl)
                  (IsReply-of 3 0 0 0 (transaction_of p) (word_at (inbuf_of w p) 12) mismatch_text
                    (word 12 (omega arith)) four))
          ])
        ])

-- Every packet is dealt with in one of four ways, the first three of which change no torrent: one
-- of less than 16 bytes is not answered; one whose action is not 0 and which does not begin with the
-- connection id of its address is answered by the number 3, its transaction number and the text of
-- the error; one whose action is 0 is answered by 0, its transaction number and the connection id
-- of its address, or not at all if it does not begin with the protocol id; and any other is handled
-- by its action.
pub handle_udp6-Guarded :
    (w : World) (p : Packet) (keys : Keys) (s : AllTorrents)
    → Guarded w p s (handle_udp6 w p keys s)
unfolding handle_udp6
handle_udp6-Guarded w p keys s = elim (Bool-cases (ltb (length p.bytes) 16)) [
  | inr long ↦ long-Guarded w p keys s (ground (arith, long))
  | inl short ↦ elim (Bool-cases (length p.bytes == 0)) [
    | inl empty ↦ rw empty (ignored _ (ground (arith, short)) refl (refl, refl))
    | inr some_bytes ↦ rw (some_bytes, short) (ignored _ (ground (arith, short)) refl (refl, refl))
  ]
]

-- A packet after which the torrents are not what they were had the connection id of the address it
-- came from.
pub handle_udp6-connid :
    (w : World) (p : Packet) (keys : Keys) (s : AllTorrents) (r : Reaction)
    → handle_udp6 w p keys s ≡ some r
    → r.torrents ≢ s
    → has_connid w p ≡ true
handle_udp6-connid w p keys s r e changed =
    go (handle_udp6 w p keys s) (handle_udp6-Guarded w p keys s) e
  where
    go : (o : Option Reaction) → Guarded w p s o → o ≡ some r → has_connid w p ≡ true
    go o (ignored t short f (quiet, same)) e =
        absurd (changed (ap Reaction.torrents (some_same e f) ∙ same))
    go o (refused t d long other unknown f (answer, same) reply) e =
        absurd (changed (ap Reaction.torrents (some_same e f) ∙ same))
    go o (connected t d long connect f (answer, same) reply) e =
        absurd (changed (ap Reaction.torrents (some_same e f) ∙ same))
    go o (served t long other known quiet f) e =
        rw (take-drop-append 8 0 p.bytes w.stale (omega (arith, long)), known)
          (same_bytes_self (udp_make_connectionid w.cipher p.remoteip))
