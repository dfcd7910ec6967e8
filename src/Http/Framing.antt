-- ===== src/Http/Framing.antt =====
-- Where a request ends, and what is behind it.
use distributed_job_engine.Prelude.{
  ℕ, zero, suc, ◌+◌, ◌-◌, ◌≤◌, ◌≡◌, refl, sym, ap, ◌∙◌, subst, Bool, true, false, Option, none,
  some, List, [], ◌∷◌, ◌++◌, ltb, if◌then◌else◌, length, length-append, Text, take, drop,
  take-append, drop-append, length-drop, arith, Bool-cases, inl, inr,
}
use distributed_job_engine.Http.{HttpRequest, max_header_bytes}
use distributed_job_engine.Http.Head.{Parsed, bad, good, parse_head}
use distributed_job_engine.Http.Feed.{
  Status, need_more, complete, error, RequestParser, fresh, find_end, read_body, after_head,
  read_head, feed, leftover,
}
use distributed_job_engine.Http.Chunks.{find_end-bound, find_end-append}

-- A test whose one branch does not complete.
else_completes :
    (c : Bool) (p : RequestParser) (y z : Status × RequestParser)
    → ¬ (y.0 ≡ complete)
    → (if c then y else z) ≡ (complete, p)
    → (c ≡ false) × (z ≡ (complete, p))
else_completes true p y z never h = absurd (never (ap (λ (r : Status × RequestParser). r.0) h))
else_completes false p y z never h = (refl, h)

not_waiting : ¬ (need_more ≡ complete)
not_waiting h = ground (arith, h)

not_failed : ¬ (error ≡ complete)
not_failed h = ground (arith, h)

-- The parser that has read a request whose headers end at `end`, with a body of `n` bytes.
abbrev pub whole : Text → ℕ → HttpRequest → ℕ → RequestParser
whole a end req n = record fresh {
  buffer = a;
  request = record req { body = take n (drop (end + 4) a) };
  headers_done = true;
  body_expected = n;
  body_start = end + 4;
  consumed = end + 4 + n;
}

-- How a complete request is made up.
abbrev pub IsWhole : Text → RequestParser → Type 0
IsWhole a p =
    (end : ℕ) × (req : HttpRequest) × (n : ℕ) × (find_end a ≡ some end)
    × (end ≤ max_header_bytes)
    × (parse_head (take end a) 0 fresh.request ≡ good (req, n))
    × (end + 4 + n ≤ length a)
    × (p ≡ whole a end req n)

after_head-IsWhole :
    (a : Text) (end : ℕ) (r : Parsed (HttpRequest × ℕ)) (p : RequestParser)
    → find_end a ≡ some end
    → end ≤ max_header_bytes
    → parse_head (take end a) 0 fresh.request ≡ r
    → after_head r (record fresh { buffer = a; body_start = end + 4 }) ≡ (complete, p)
    → IsWhole a p
unfolding after_head read_body fresh
after_head-IsWhole a end (bad status message) p at short head h =
    absurd (not_failed (ap (λ (r : Status × RequestParser). r.0) h))
after_head-IsWhole a end (good (req, n)) p at short head h =
    let done = else_completes (ltb (length a - (end + 4)) n) p _ _ not_waiting h in
    let room : end + 4 + n ≤ length a = ground (arith, done.0, find_end-bound a end at) in
    (end, req, n, at, short, head, room, sym (ap (λ (r : Status × RequestParser). r.1) done.1))

read_head-IsWhole :
    (a : Text) (o : Option ℕ) (p : RequestParser)
    → find_end a ≡ o
    → read_head o (record fresh { buffer = a }) ≡ (complete, p)
    → IsWhole a p
unfolding read_head fresh
read_head-IsWhole a none p at h =
    let done = else_completes (ltb max_header_bytes (length a)) p _ _ not_failed h in
    absurd (not_waiting (ap (λ (r : Status × RequestParser). r.0) done.1))
read_head-IsWhole a (some end) p at h =
    let done = else_completes (ltb max_header_bytes end) p _ _ not_failed h in
    after_head-IsWhole a end (parse_head (take end a) 0 fresh.request) p at (ground (arith, done.0))
      refl done.1

pub feed-IsWhole : (a : Text) (p : RequestParser) → feed a fresh ≡ (complete, p) → IsWhole a p
unfolding feed fresh
feed-IsWhole a p h = read_head-IsWhole a (find_end a) p refl h

not_above : (n m : ℕ) → n ≤ m → ltb m n ≡ false
not_above n m h = ground (arith, h)

-- And such a request is read, whatever is behind it.
pub feed-whole :
    (a : Text) (end : ℕ) (req : HttpRequest) (n : ℕ)
    → find_end a ≡ some end
    → end ≤ max_header_bytes
    → parse_head (take end a) 0 fresh.request ≡ good (req, n)
    → end + 4 + n ≤ length a
    → feed a fresh ≡ (complete, whole a end req n)
unfolding feed read_head after_head read_body fresh
feed-whole a end req n at short head room =
    let fits = not_above end max_header_bytes short in
    let enough = not_above n (length a - (end + 4)) (omega (arith, room)) in
    rw at (rw fits (rw head (rw enough refl)))

pub drop_all {ℓ} : {A : Type ℓ} (n : ℕ) (xs : List A) → length xs ≤ n → drop n xs ≡ []
unfolding drop
drop_all zero [] h = refl
drop_all zero (x ∷ xs) h = absurd (omega (arith, h))
drop_all (suc n) [] h = refl
drop_all (suc n) (x ∷ xs) h = drop_all n xs (omega (arith, h))

pub leftover-drop : (p : RequestParser) → leftover p ≡ drop p.consumed p.buffer
leftover-drop p = elim (Bool-cases (ltb p.consumed (length p.buffer))) [
  | inl more ↦ rw more refl
  | inr none_left ↦ rw none_left (sym (drop_all p.consumed p.buffer (ground (arith, none_left))))
]

feed-whole_append :
    (a b : Text) (end : ℕ) (req : HttpRequest) (n : ℕ)
    → find_end a ≡ some end
    → end ≤ max_header_bytes
    → parse_head (take end a) 0 fresh.request ≡ good (req, n)
    → end + 4 + n ≤ length a
    → feed (a ++ b) fresh ≡ (complete, record (whole a end req n) { buffer = a ++ b })
feed-whole_append a b end req n at short head room =
    let at' = find_end-append a b end at in
    let head' =
      ap (λ s. parse_head s 0 fresh.request) (take-append end a b (omega (arith, room))) ∙ head in
    let room' : end + 4 + n ≤ length (a ++ b) = omega (arith, room, length-append a b) in
    let body : take n (drop (end + 4) (a ++ b)) ≡ take n (drop (end + 4) a) =
      ap (take n) (drop-append (end + 4) a b (omega (arith, room)))
      ∙ take-append n (drop (end + 4) a) b (omega (arith, room, length-drop (end + 4) a)) in
    feed-whole (a ++ b) end req n at' short head' room' ∙ rw body refl

leftover-whole :
    (a b : Text) (end : ℕ) (req : HttpRequest) (n : ℕ)
    → end + 4 + n ≤ length a
    → leftover (record (whole a end req n) { buffer = a ++ b }) ≡ leftover (whole a end req n) ++ b
leftover-whole a b end req n room =
    leftover-drop (record (whole a end req n) { buffer = a ++ b })
    ∙ drop-append (end + 4 + n) a b room
    ∙ ap (λ s. s ++ b) (sym (leftover-drop (whole a end req n)))

-- Bytes behind a complete request do not change how it is read, and all of them are left over for
-- the next request of the connection.
pub complete-append :
    (a b : Text) (p : RequestParser)
    → feed a fresh ≡ (complete, p)
    → let p' = record p { buffer = a ++ b } in
      (feed (a ++ b) fresh ≡ (complete, p')) × (leftover p' ≡ leftover p ++ b)
complete-append a b p h =
    let (end, req, n, at, short, head, room, same) = feed-IsWhole a p h in
    subst
      (λ q.
        (feed (a ++ b) fresh ≡ (complete, record q { buffer = a ++ b }))
        × (leftover (record q { buffer = a ++ b }) ≡ leftover q ++ b))
      (sym same)
      (feed-whole_append a b end req n at short head room, leftover-whole a b end req n room)
