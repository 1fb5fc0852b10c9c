-- ===== src/Tests/Requests.antt =====
-- Scanning the parts of a request.
use tstracker.Base.{some, none, ℕ, ◌≡◌, refl, arith, inl, inr, [], ◌∷◌, List}
use tstracker.Base.Int.{pos, negsuc}
use tstracker.Scan.{
  Keyword, scan_find_keywords, keyword_loop, keyword_hit, strncmp_equal, is_unreserved, fromhex,
  decode_loop, parsed, scan_urlencoded_query,
}
use tstracker.Scan.Keywords.{keyword_loop-lookup, keyword_loop-nul}
use tstracker.Scan.Decode.{
  encode, QueryWithin, scan_urlencoded_query-encode, scan_urlencoded_query-QueryWithin,
}

-- `a%2fb=` as the name of a parameter.
abbrev name_part : List ℕ
name_part = 97 ∷ 37 ∷ 50 ∷ 102 ∷ 98 ∷ 61 ∷ 32 ∷ []

name_run : scan_urlencoded_query 2 name_part ≡ parsed (97 ∷ 47 ∷ 98 ∷ []) (32 ∷ [])
unfolding scan_urlencoded_query decode_loop is_unreserved fromhex
name_run = refl

scan_urlencoded_query-encode_example :
    scan_urlencoded_query 4 (encode (0 ∷ 255 ∷ []) (32 ∷ [])) ≡ parsed (0 ∷ 255 ∷ []) (32 ∷ [])
scan_urlencoded_query-encode_example =
    scan_urlencoded_query-encode 4 (inr (inr refl)) [] 0 (255 ∷ []) (omega arith, (omega arith, tt))

scan_urlencoded_query-QueryWithin_example : QueryWithin 7 (scan_urlencoded_query 2 name_part)
scan_urlencoded_query-QueryWithin_example =
    scan_urlencoded_query-QueryWithin 2 (inr (inl refl)) 32 refl (97 ∷ 37 ∷ 50 ∷ 102 ∷ 98 ∷ 61 ∷ [])
      []

-- `port`, with any value.
abbrev port : Keyword
port = record { key = 112 ∷ 111 ∷ 114 ∷ 116 ∷ []; value = pos 1 }

port_run :
    scan_find_keywords (port ∷ []) 2 (112 ∷ 111 ∷ 114 ∷ 116 ∷ 61 ∷ 32 ∷ []) ≡ some (pos 1, 32 ∷ [])
unfolding scan_find_keywords keyword_loop keyword_hit strncmp_equal scan_urlencoded_query
    decode_loop is_unreserved
port_run = refl

keyword_loop-lookup_example : keyword_loop (port ∷ []) (112 ∷ 111 ∷ []) ≡ some (negsuc 2)
keyword_loop-lookup_example =
    keyword_loop-lookup (port ∷ []) (112 ∷ 111 ∷ [])
      ((ground arith, (ground arith, (ground arith, (ground arith, tt)))), tt)
      (ground arith, (ground arith, tt))

keyword_loop-nul_example : keyword_loop (port ∷ []) (112 ∷ 111 ∷ 114 ∷ 116 ∷ 0 ∷ []) ≡ none
keyword_loop-nul_example = keyword_loop-nul port [] []
