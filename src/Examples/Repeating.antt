-- ===== src/Examples/Repeating.antt =====
-- Two requests that carry the same key.
use cherry_wiki.Base.{ℕ, none, some, [], ◌∷◌, ◌++◌, ◌+◌, ◌≡◌, refl, arith}
use cherry_wiki.Net.Capture.{capture}
use cherry_wiki.Net.Capture.Whole.{IsWhole, body_of, bytes_of, capture-IsWhole}
use cherry_wiki.Net.Idempotency.{
  Server, StoredIdempotentResponse, Response, opening, reserve, finish, Reach, start, later,
  reserves,
}
use cherry_wiki.Net.Idempotency.Exclusive.{reservation_exclusive}

abbrev reserved : Server
reserved = reserve 0 (opening (λ i. "k"))

reserved-Reach : Reach (λ i. "k") reserved
reserved-Reach = later start (reserves 0 refl)

reservation_exclusive_example : ◌≡◌ {A = ℕ} 0 0
unfolding reserve
reservation_exclusive_example =
    reservation_exclusive reserved-Reach 0 0 0 0 (record { holding = refl; in_time = omega arith })
      (record { holding = refl; in_time = omega arith }) refl

-- Its chunk is written by `end`, which writes it again.
abbrev response : Response
response = record {
  status_code = 201;
  content_type = some "application/JSON; charset=utf-8";
  written = some (123 ∷ []) ∷ none ∷ [];
  last = some (125 ∷ []);
  rewritten = some (125 ∷ []) ∷ [];
}

abbrev kept : StoredIdempotentResponse
kept = record {
  status_code = 201;
  body = 123 ∷ 125 ∷ [];
  content_type = "application/JSON; charset=utf-8";
}

abbrev an_hour_later : Server
an_hour_later = let s = finish 0 response reserved in record s { now = s.now + 3600000 }

capture-IsWhole_example :
    IsWhole
      (body_of response.written ++ bytes_of response.last)
      (capture response.rewritten response.written response.last)
capture-IsWhole_example = capture-IsWhole response.rewritten response.written response.last
