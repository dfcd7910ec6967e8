-- ===== src/Http/Sent.antt =====
-- What the client sends, the server's parser reads.
use distributed_job_engine.Prelude.{
  ℕ, zero, suc, ◌+◌, ◌≡◌, refl, sym, ap, ◌∙◌, true, List, [], ◌∷◌, ◌++◌, length, length-append,
  arith, take, drop,
}
use mathlib.Core.List.{append-nil}
use distributed_job_engine.Http.Head.{parse_head}
use distributed_job_engine.Http.Feed.{complete, fresh, feed, leftover, blank_line}
use distributed_job_engine.Http.Framing.{whole, feed-whole, leftover-drop, drop_all}
use distributed_job_engine.Http.Client.{ClientCall, request_text}
use distributed_job_engine.Http.Lines.{find_end-head_text}
use distributed_job_engine.Http.RequestLine.{
  request_line, host_line, connection_line, type_lines, head_of, IsSendable,
}
use distributed_job_engine.Http.Headers.{received}
use distributed_job_engine.Http.SentHead.{
  request_line-IsLine, other_lines-IsLine, parse_head-sent, request_text-head,
}

take_front {ℓ} : {A : Type ℓ} (xs ys : List A) → take (length xs) (xs ++ ys) ≡ xs
unfolding take
take_front [] ys = refl
take_front (x ∷ xs) ys = ap (λ zs. x ∷ zs) (take_front xs ys)

drop_past {ℓ} :
    {A : Type ℓ} (n k : ℕ) (xs ys : List A) → n ≡ length xs + k → drop n (xs ++ ys) ≡ drop k ys
unfolding drop
drop_past n k [] ys h = ap (λ m. drop m ys) (h ∙ omega arith)
drop_past zero k (x ∷ xs) ys h = absurd (omega (arith, h))
drop_past (suc n) k (x ∷ xs) ys h = drop_past n k xs ys (omega (arith, h))

feed-head :
    (c : ClientCall)
    → IsSendable c
    → let s = head_of c ++ (blank_line ++ c.body) in
      feed s fresh ≡ (complete, whole s (length (head_of c)) (received c) (length c.body))
feed-head c h =
    let head = head_of c in
    let s = head ++ (blank_line ++ c.body) in
    let at =
      find_end-head_text (request_line c) (host_line c ∷ connection_line ∷ type_lines c) c.body
        (request_line-IsLine c h) (other_lines-IsLine c h) in
    let parsed =
      ap (λ t. parse_head t 0 fresh.request) (take_front head (blank_line ++ c.body))
      ∙ parse_head-sent c h in
    feed-whole s (length head) (received c) (length c.body) at h.9 parsed
      (omega (arith, length-append head (blank_line ++ c.body)))

body_whole :
    (c : ClientCall)
    → take (length c.body) (drop (length (head_of c) + 4) (head_of c ++ (blank_line ++ c.body)))
      ≡ c.body
body_whole c =
    let rest : drop 4 (blank_line ++ c.body) ≡ c.body ++ [] =
      unfold drop in sym (append-nil c.body) in
    ap (take (length c.body))
      (drop_past (length (head_of c) + 4) 4 (head_of c) (blank_line ++ c.body) refl ∙ rest)
    ∙ take_front c.body []

-- What `HttpClient::request` sends for a call that is sendable (see `IsSendable`: a method and a path
-- of visible bytes, no query, percent sign or plus in the path, sizes within the limits of the parser)
-- is read by the server as one complete request, with the method, the path, the body and
-- `Connection: keep-alive` of the call, and nothing is left over.
pub feed-request_text :
    (c : ClientCall)
    → IsSendable c
    → let r = feed (request_text c) fresh in
      (r.0 ≡ complete)
      × (r.1.request.method ≡ c.method)
      × (r.1.request.path ≡ c.path)
      × (r.1.request.body ≡ c.body)
      × (r.1.request.keep_alive ≡ true)
      × (leftover r.1 ≡ [])
feed-request_text c h =
    let s = head_of c ++ (blank_line ++ c.body) in
    let p = whole s (length (head_of c)) (received c) (length c.body) in
    let none_left : leftover p ≡ [] =
      leftover-drop p
      ∙ drop_all p.consumed s (omega (arith, length-append (head_of c) (blank_line ++ c.body))) in
    let read : feed (request_text c) fresh ≡ (complete, p) =
      ap (λ t. feed t fresh) (request_text-head c) ∙ feed-head c h in
    rw read (refl, refl, refl, body_whole c, refl, none_left)
