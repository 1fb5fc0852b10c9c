-- ===== src/Http/Framing.antt =====
-- What a client reads: the lengths that the headers announce are right.
use tstracker.Base.{
  ℕ, ◌+◌, ◌-◌, ◌≤◌, ◌≡◌, ◌≢◌, ◌∙◌, refl, ap, some, List, [], ◌∷◌, ◌++◌, append_assoc, length,
  length-append, length-take, length-drop, take-drop, take-append, drop-append, take, drop, arith,
  zd, codes,
}
use tstracker.Http.{
  HttpError, error_code, error_head, error_body, http_issue_error, write_at, join_header,
  header_text, success_http_header_length, success_http_size_off,
}

-- The Content-Length of an error page is the length of its body, whatever the code; a redirection
-- announces a length of 0 and has no body.
pub http_issue_error-length :
    (url : List ℕ) (e : HttpError)
    → (e ≢ HttpError.error_302
        → http_issue_error url e
          ≡ error_head (error_code e) (length (error_body (error_code e)))
            ++ error_body (error_code e))
      × (http_issue_error url HttpError.error_302
          ≡ codes "HTTP/1.0 302 Found\r\nContent-Length: 0\r\nLocation: "
            ++ url
            ++ codes "\r\n\r\n")
unfolding http_issue_error
http_issue_error-length url HttpError.error_302 = (λ other. absurd (other refl), refl)
http_issue_error-length url HttpError.error_400 = (λ other. refl, refl)
http_issue_error-length url HttpError.error_400_param = (λ other. refl, refl)
http_issue_error-length url HttpError.error_400_compact = (λ other. refl, refl)
http_issue_error-length url HttpError.error_402_notmodest = (λ other. refl, refl)
http_issue_error-length url HttpError.error_403_ip = (λ other. refl, refl)
http_issue_error-length url HttpError.error_404 = (λ other. refl, refl)
http_issue_error-length url HttpError.error_500 = (λ other. refl, refl)

-- Writing over a middle part that is as long.
write_at-middle :
    (xs ys zs vs : List ℕ)
    → length ys ≡ length vs
    → write_at (xs ++ ys ++ zs) (length xs) vs ≡ some (xs ++ vs ++ zs)
unfolding write_at
write_at-middle [] [] zs [] e = refl
write_at-middle [] [] zs (v ∷ vs) e = absurd (omega arith)
write_at-middle [] (y ∷ ys) zs [] e = absurd (omega arith)
write_at-middle [] (y ∷ ys) zs (v ∷ vs) e = rw (write_at-middle [] ys zs vs (omega arith)) refl
write_at-middle (x ∷ xs) ys zs vs e = rw (write_at-middle xs ys zs vs e) refl

abbrev digits : ℕ → ℕ
digits n = length (zd n)

length-header_text : (n : ℕ) → length (header_text n) ≡ 62 + digits n
length-header_text n = simp length-append (omega arith)

-- The bytes of a packet.
abbrev pub packet : List ℕ × ℕ × ℕ → List ℕ
packet (buffer, off, size) = take size (drop off buffer)

packet-cut :
    (b h r j : List ℕ) (off size : ℕ)
    → length b ≡ off
    → size ≡ length r + 1 + length h
    → packet (b ++ h ++ (10 ∷ []) ++ (r ++ j), off, size) ≡ h ++ 10 ∷ r
packet-cut b h r j off size e f =
    let whole : b ++ h ++ (10 ∷ []) ++ (r ++ j) ≡ b ++ ((h ++ 10 ∷ r) ++ j) =
      simp append_assoc refl in
    let long : size ≡ length (h ++ 10 ∷ r) = omega (arith, f, length-append h (10 ∷ r)) in
    rw (whole, ← e, long)
      (ap (take (length (h ++ 10 ∷ r))) (drop-append b ((h ++ 10 ∷ r) ++ j))
        ∙ take-append (h ++ 10 ∷ r) j)

module _ (pre reply junk : List ℕ) (room : length pre ≡ success_http_header_length)
    (short : length (zd (length reply)) ≤ success_http_size_off) where
  abbrev n : ℕ
  n = length reply

  abbrev off : ℕ
  off = success_http_size_off - digits n

  abbrev head : List ℕ
  head = header_text n

  abbrev before : List ℕ
  before = take off pre

  length-before : length before ≡ off
  length-before = length-take off pre (omega (arith, room))

  printed :
      write_at (pre ++ reply ++ junk) off (head ++ 0 ∷ [])
      ≡ some (before ++ (head ++ 0 ∷ []) ++ (reply ++ junk))
  printed =
      let same : length (drop off pre) ≡ length (head ++ 0 ∷ []) = omega (
        arith,
        length-drop off pre,
        room,
        short,
        length-append head (0 ∷ []),
        length-header_text n,
      ) in
      let w = write_at-middle before (drop off pre) (reply ++ junk) (head ++ 0 ∷ []) same in
      rw (append_assoc pre reply junk) (rw (take-drop off pre, length-before) at w)

  joined :
      write_at (before ++ (head ++ 0 ∷ []) ++ (reply ++ junk)) 79 (10 ∷ [])
      ≡ some (before ++ head ++ (10 ∷ []) ++ (reply ++ junk))
  joined =
      let same : length (before ++ head) ≡ 79 =
        omega (arith, length-append before head, length-before, short, length-header_text n) in
      let w = write_at-middle (before ++ head) (0 ∷ []) (reply ++ junk) (10 ∷ []) refl in
      rw (← append_assoc before head (0 ∷ [])) (rw same at w)

  -- Given a buffer that begins with the 80 bytes kept free for the header, and a reply whose size is
  -- printed in at most 17 characters, the three steps write within the buffer, and the packet is the
  -- header with that size, a line feed and the reply, with nothing between them and nothing after.
  pub join_header-packet :
      (r : List ℕ × ℕ × ℕ) × (join_header (pre ++ reply ++ junk) (length reply) ≡ some r)
      × (packet r ≡ header_text (length reply) ++ 10 ∷ reply)
  unfolding join_header
  join_header-packet =
      let buffer = before ++ head ++ (10 ∷ []) ++ (reply ++ junk) in
      (
        (buffer, off, n + 1 + length head),
        rw (printed, joined) refl,
        packet-cut before head reply junk off (n + 1 + length head) length-before refl,
      )
