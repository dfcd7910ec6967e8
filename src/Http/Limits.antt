-- ===== src/Http/Limits.antt =====
-- The limits of the request parser.
use distributed_job_engine.Prelude.{
  ℕ, zero, suc, ◌+◌, ◌≤◌, ◌≡◌, refl, sym, ap, subst, Bool, true, false, not, Option, none, some,
  List, [], ◌∷◌, ltb, if◌then◌else◌, length, is_nil, Text, text, take, drop, length-drop, arith, ℤ,
  pos, negsuc,
}
use distributed_job_engine.Util.{to_lower, parse_int, split, trim}
use distributed_job_engine.Http.{HttpRequest, Pairs, header, max_header_bytes, max_body_bytes}
use distributed_job_engine.Http.Head.{
  Parsed, bad, good, ◌>>=◌, parse_head, parse_lines, parse_line, add_headers, body_length,
  check_length,
}
use distributed_job_engine.Http.Feed.{complete, RequestParser, fresh, feed}
use distributed_job_engine.Http.Framing.{feed-IsWhole}

length-take {ℓ} : {A : Type ℓ} (n : ℕ) (xs : List A) → n ≤ length xs → length (take n xs) ≡ n
unfolding take
length-take zero xs h = refl
length-take (suc n) [] h = absurd (omega (arith, h))
length-take (suc n) (x ∷ xs) h = omega (arith, length-take n xs (omega (arith, h)))

bind-good_both :
    {A B : Type 0} (r : Parsed A) (f : A → Parsed B) (y : B)
    → (r >>= f) ≡ good y
    → (x : A) × (r ≡ good x) × (f x ≡ good y)
bind-good_both (bad status message) f y h = absurd (ground (arith, h))
bind-good_both (good x) f y h = (x, refl, h)

bind-good :
    {A B : Type 0} (r : Parsed A) (f : A → Parsed B) (y : B)
    → (r >>= f) ≡ good y
    → (x : A) × (f x ≡ good y)
bind-good (bad status message) f y h = absurd (ground (arith, h))
bind-good (good x) f y h = (x, h)

else_good :
    {A : Type 0} (c : Bool) (status : ℕ) (message : Text) (z : Parsed A) (y : A)
    → (if c then bad status message else z) ≡ good y
    → (c ≡ false) × (z ≡ good y)
else_good true status message z y h = absurd (ground (arith, h))
else_good false status message z y h = (refl, h)

same_length :
    (req req' : HttpRequest) (u v : ℕ)
    → ◌≡◌ {A = Parsed (HttpRequest × ℕ)} (good (req, u)) (good (req', v))
    → u ≡ v
same_length req req' u v h =
    ap (λ r. elim r as (λ r'. ℕ) [ good z ↦ z.1 | bad status message ↦ u ]) h

check_length-bound : (v : Option ℤ) (n : ℕ) → check_length v ≡ good n → n ≤ max_body_bytes
check_length-bound none n h = absurd (ground (arith, h))
check_length-bound (some (negsuc m)) n h = absurd (ground (arith, h))
check_length-bound (some (pos m)) n h =
    let fits = else_good (ltb max_body_bytes m) _ _ (good m) n h in ground (arith, fits.0, fits.1)

length_of :
    (cl : Text) (n : ℕ)
    → (if is_nil cl then good 0 else check_length (parse_int cl)) ≡ good n
    → n ≤ max_body_bytes
length_of [] n h = ground (arith, h)
length_of (c ∷ cl) n h = check_length-bound (parse_int (c ∷ cl)) n h

body_length-bound : (headers : Pairs) (n : ℕ) → body_length 0 headers ≡ good n → n ≤ max_body_bytes
unfolding body_length
body_length-bound headers n h =
    let plain =
      else_good (not (is_nil (to_lower (header (text "Transfer-Encoding") headers)))) _ _ _ n h in
    length_of (header (text "Content-Length") headers) n plain.1

head_bound :
    (lines : List Text) (req0 req : HttpRequest) (n : ℕ)
    → parse_lines lines 0 req0 ≡ good (req, n)
    → n ≤ max_body_bytes
unfolding parse_lines
head_bound [] req0 req n h = absurd (ground (arith, h))
head_bound (line ∷ lines) req0 req n h =
    let (req1, h1) = bind-good (parse_line (trim line) req0) _ (req, n) h in
    let (headers, h2) = bind-good (add_headers lines req1.headers) _ (req, n) h1 in
    let (m, h3, h4) = bind-good_both (body_length 0 headers) _ (req, n) h2 in
    subst (λ k. k ≤ max_body_bytes) (same_length _ _ m n h4) (body_length-bound headers m h3)

parse_head-bound :
    (head : Text) (req0 req : HttpRequest) (n : ℕ)
    → parse_head head 0 req0 ≡ good (req, n)
    → n ≤ max_body_bytes
unfolding parse_head
parse_head-bound head req0 req n h = head_bound (split 10 head) req0 req n h

-- A complete request is within the limits: its headers take at most 16 KiB and the empty line, its
-- body has the length that was announced, at most 8 MiB, and all was in the bytes given.
pub complete_bounds :
    (a : Text) (p : RequestParser)
    → feed a fresh ≡ (complete, p)
    → (p.body_start ≤ max_header_bytes + 4)
      × (length p.request.body ≡ p.body_expected)
      × (p.body_expected ≤ max_body_bytes)
      × (p.consumed ≡ p.body_start + p.body_expected)
      × (p.consumed ≤ length a)
complete_bounds a p h =
    let (end, req, n, at, short, head, room, same) = feed-IsWhole a p h in
    let body : n ≤ length (drop (end + 4) a) = omega (arith, room, length-drop (end + 4) a) in
    subst
      (λ q.
        (q.body_start ≤ max_header_bytes + 4)
        × (length q.request.body ≡ q.body_expected)
        × (q.body_expected ≤ max_body_bytes)
        × (q.consumed ≡ q.body_start + q.body_expected)
        × (q.consumed ≤ length a))
      (sym same)
      (
        omega (arith, short),
        length-take n (drop (end + 4) a) body,
        parse_head-bound (take end a) fresh.request req n head,
        refl,
        room,
      )
