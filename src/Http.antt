-- ===== src/Http.antt =====
-- src/opentracker/ot_http.c: error replies, the header that is put before a reply, and what becomes
-- of a connection that is written to. The announce and scrape queries are in the child modules.
pub mod Framing
pub mod Query
pub mod Ends
pub mod Within
pub mod Rounds
pub mod Request
pub mod Total
use tstracker.Base.{
  ℕ, zero, suc, ◌+◌, ◌-◌, ◌*◌, Bool, true, false, ◌&&◌, Option, none, some, List, [], ◌∷◌, ◌++◌,
  length, get_or, drop, replicate, ltb, ◌==◌, not, if◌then◌else◌, ◌>>=◌, codes, zd,
}
use tstracker.Base.Int.{ℤ, pos, negsuc}

-- The codes CODE_HTTPERROR of src/opentracker/ot_stats.h, in order.
pub data HttpError : Type 0 where
  error_302 error_400 error_400_param error_400_compact : HttpError
  error_402_notmodest error_403_ip error_404 error_500 : HttpError

abbrev pub code_of : HttpError → ℕ
code_of HttpError.error_302 = 0
code_of HttpError.error_400 = 1
code_of HttpError.error_400_param = 2
code_of HttpError.error_400_compact = 3
code_of HttpError.error_402_notmodest = 4
code_of HttpError.error_403_ip = 5
code_of HttpError.error_404 = 6
code_of HttpError.error_500 = 7

-- `error_code`, which has one entry more than there are codes.
abbrev pub error_codes : List (List ℕ)
error_codes =
    codes "302 Found"
    ∷ codes "400 Invalid Request"
    ∷ codes "400 Invalid Request"
    ∷ codes "400 Invalid Request"
    ∷ codes "402 Payment Required"
    ∷ codes "403 Not Modest"
    ∷ codes "403 Access Denied"
    ∷ codes "404 Not Found"
    ∷ codes "500 Internal Server Error"
    ∷ []

abbrev pub error_code : HttpError → List ℕ
error_code e = get_or error_codes (code_of e) []

abbrev pub error_head : List ℕ → ℕ → List ℕ
error_head title n =
    codes "HTTP/1.0 "
    ++ title
    ++ codes "\r\nContent-Type: text/html\r\nContent-Length: "
    ++ zd n
    ++ codes "\r\n\r\n"

abbrev pub error_body : List ℕ → List ℕ
error_body title = codes "<title>" ++ drop 4 title ++ codes "</title>\n"

-- What is sent; a redirection needs `g_redirecturl`. The buffer is longer than each of these texts
-- if the address is not very long.
unfoldable pub http_issue_error : List ℕ → HttpError → List ℕ
http_issue_error redirecturl HttpError.error_302 =
    codes "HTTP/1.0 302 Found\r\nContent-Length: 0\r\nLocation: " ++ redirecturl ++ codes "\r\n\r\n"
http_issue_error redirecturl e =
    let title = error_code e in error_head title (length title + 16 - 4) ++ error_body title

abbrev pub success_http_header_length : ℕ
success_http_header_length = 80

abbrev pub success_http_size_off : ℕ
success_http_size_off = 17

abbrev pub header_text : ℕ → List ℕ
header_text n =
    codes "HTTP/1.1 200 OK\r\nContent-Type: text/plain\r\nContent-Length: "
    ++ zd n
    ++ codes "\r\n\r"

-- Writing bytes at a place of a buffer; beyond its end is a fault.
unfoldable pub write_at : List ℕ → ℕ → List ℕ → Option (List ℕ)
write_at buffer zero [] = some buffer
write_at [] zero (x ∷ xs) = none
write_at (b ∷ buffer) zero (x ∷ xs) = write_at buffer zero xs >>= λ r. some (x ∷ r)
write_at [] (suc i) xs = none
write_at (b ∷ buffer) (suc i) xs = write_at buffer i xs >>= λ r. some (b ∷ r)

-- The three steps at the end of `http_handle_request` on the output buffer, in which the reply of
-- `reply_size` bytes stands from SUCCESS_HTTP_HEADER_LENGTH on: where the packet begins, and its
-- size. `sprintf` ends its text with a NUL.
unfoldable pub join_header : List ℕ → ℕ → Option (List ℕ × ℕ × ℕ)
unfolding write_at
join_header outbuf reply_size = do
  let reply_off = success_http_size_off - length (zd reply_size)
  a ← write_at outbuf reply_off (header_text reply_size ++ 0 ∷ [])
  b ← write_at a (success_http_header_length - 1) (10 ∷ [])
  some (b, reply_off, reply_size + 1 + length (header_text reply_size))

-- A connection: what is collected of a request, what waits to be sent, and if it is open. `batch` is
-- `iob_addbuf_free`, and `wants_write` is `io_wantwrite`.
pub record Connection : Type 0 where
  pub collected : List ℕ
  pub batch : List (List ℕ)
  pub is_open : Bool
  pub wants_read : Bool
  pub wants_write : Bool

-- `http_senddata`: `written` is what `write` returned, -1 for an error, and `rest` is what follows the
-- header in the request.
unfoldable pub http_senddata : ℤ → Bool → Bool → List ℕ → List ℕ → Connection → Connection
http_senddata written malloc_ok keep_alive rest reply c =
    let kept = if keep_alive && ltb 0 (length rest) then rest else [] in
    let closed : Connection = record c { collected = []; is_open = false } in
    let waiting : ℕ → Connection = λ n. record c {
      collected = kept;
      batch = c.batch ++ drop n reply ∷ [];
      wants_read = if keep_alive then c.wants_read else false;
      wants_write = true;
    } in
    let sent : ℕ → Connection = λ n.
      if (n == length reply) && not keep_alive
      then closed
      else if ltb n (length reply)
      then (if malloc_ok then waiting n else closed)
      else record c { collected = kept } in
    elim written [ negsuc n ↦ closed | pos n ↦ sent n ]
