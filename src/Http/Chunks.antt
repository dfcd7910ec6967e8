-- ===== src/Http/Chunks.antt =====
-- The bytes of a request may come in any pieces, with others behind them.
use distributed_job_engine.Prelude.{
  ℕ, zero, suc, ◌+◌, ◌-◌, ◌≤◌, ◌≡◌, refl, sym, ap, ◌∙◌, subst, Bool, true, false, ◌&&◌, Option,
  none, some, List, [], ◌∷◌, ◌++◌, ltb, ◌==◌, if◌then◌else◌, length, Text, take, take-append, arith,
  Bool-cases, inl, inr,
}
use mathlib.Core.List.{append_assoc, append-nil}
use distributed_job_engine.Util.{starts_with}
use distributed_job_engine.Http.{HttpRequest, max_header_bytes}
use distributed_job_engine.Http.Head.{Parsed, bad, good, parse_head}
use distributed_job_engine.Http.Feed.{
  Status, need_more, complete, error, RequestParser, fresh, blank_line, find_end, read_body,
  after_head, read_head, feed, wants_more, read_chunks,
}

starts_with-append :
    (s prefix ys : Text) → starts_with s prefix ≡ true → starts_with (s ++ ys) prefix ≡ true
unfolding starts_with
starts_with-append s [] ys h = refl
starts_with-append [] (p ∷ prefix) ys h = absurd (ground (arith, h))
starts_with-append (c ∷ s) (p ∷ prefix) ys h = ground (arith, h, starts_with-append s prefix ys)

-- Whether a text that is long enough starts with the prefix does not depend on what follows.
starts_with-append_long :
    (s prefix ys : Text)
    → length prefix ≤ length s
    → starts_with (s ++ ys) prefix ≡ starts_with s prefix
unfolding starts_with
starts_with-append_long s [] ys h = refl
starts_with-append_long [] (p ∷ prefix) ys h = absurd (omega (arith, h))
starts_with-append_long (c ∷ s) (p ∷ prefix) ys h =
    ap (λ b. (c == p) && b) (starts_with-append_long s prefix ys (omega (arith, h)))

starts_with-length : (s prefix : Text) → starts_with s prefix ≡ true → length prefix ≤ length s
unfolding starts_with
starts_with-length s [] h = omega arith
starts_with-length [] (p ∷ prefix) h = absurd (ground (arith, h))
starts_with-length (c ∷ s) (p ∷ prefix) h =
    let same : starts_with s prefix ≡ true = ground (arith, h) in
    omega (arith, starts_with-length s prefix same)

abbrev pub next : Option ℕ → Option ℕ
next none = none
next (some n) = some (suc n)

next-some : (o : Option ℕ) (n : ℕ) → next o ≡ some (suc n) → o ≡ some n
next-some none n h = absurd (ground (arith, h))
next-some (some m) n h = ground (arith, h)

next_zero : (o : Option ℕ) → ¬ (next o ≡ some 0)
next_zero none h = ground (arith, h)
next_zero (some m) h = ground (arith, h)

find_end-here :
    (c : ℕ) (s : Text) → starts_with (c ∷ s) blank_line ≡ true → find_end (c ∷ s) ≡ some 0
unfolding find_end
find_end-here c s h = rw h refl

pub find_end-later :
    (c : ℕ) (s : Text)
    → starts_with (c ∷ s) blank_line ≡ false
    → find_end (c ∷ s) ≡ next (find_end s)
unfolding find_end
find_end-later c s h = rw h refl

find_end_tail : (c : ℕ) (s : Text) (n : ℕ) → find_end (c ∷ s) ≡ some (suc n) → find_end s ≡ some n
find_end_tail c s n h = elim (Bool-cases (starts_with (c ∷ s) blank_line)) [
  | inl here ↦ absurd (ground (arith, sym (find_end-here c s here) ∙ h))
  | inr later ↦ next-some (find_end s) n (sym (find_end-later c s later) ∙ h)
]

find_end_head :
    (c : ℕ) (s : Text) → find_end (c ∷ s) ≡ some 0 → starts_with (c ∷ s) blank_line ≡ true
find_end_head c s h = elim (Bool-cases (starts_with (c ∷ s) blank_line)) [
  | inl here ↦ here
  | inr later ↦ absurd (next_zero (find_end s) (sym (find_end-later c s later) ∙ h))
]

find_end_not_head :
    (c : ℕ) (s : Text) (n : ℕ)
    → find_end (c ∷ s) ≡ some (suc n)
    → starts_with (c ∷ s) blank_line ≡ false
find_end_not_head c s n h = elim (Bool-cases (starts_with (c ∷ s) blank_line)) [
  | inl here ↦ absurd (ground (arith, sym (find_end-here c s here) ∙ h))
  | inr later ↦ later
]

-- The end of the headers is four bytes before the end of the text at least.
pub find_end-bound : (s : Text) (n : ℕ) → find_end s ≡ some n → n + 4 ≤ length s
find_end-bound [] n h = absurd (unfold find_end in ground (arith, h))
find_end-bound (c ∷ s) zero h =
    omega (arith, starts_with-length (c ∷ s) blank_line (find_end_head c s h))
find_end-bound (c ∷ s) (suc n) h = omega (arith, find_end-bound s n (find_end_tail c s n h))

pub find_end-append : (s ys : Text) (n : ℕ) → find_end s ≡ some n → find_end (s ++ ys) ≡ some n
find_end-append [] ys n h = absurd (unfold find_end in ground (arith, h))
find_end-append (c ∷ s) ys zero h =
    find_end-here c (s ++ ys) (starts_with-append (c ∷ s) blank_line ys (find_end_head c s h))
find_end-append (c ∷ s) ys (suc n) h =
    let rest = find_end-append s ys n (find_end_tail c s n h) in
    let long : 4 ≤ length (c ∷ s) = omega (arith, find_end-bound (c ∷ s) (suc n) h) in
    let later = starts_with-append_long (c ∷ s) blank_line ys long ∙ find_end_not_head c s n h in
    find_end-later c (s ++ ys) later ∙ ap next rest

-- A test whose one branch does not wait.
then_waits :
    (c : Bool) (x p : RequestParser) (y : Status × RequestParser)
    → ¬ (y.0 ≡ need_more)
    → (if c then (need_more, x) else y) ≡ (need_more, p)
    → (c ≡ true) × (x ≡ p)
then_waits true x p y never h = (refl, ap (λ (r : Status × RequestParser). r.1) h)
then_waits false x p y never h = absurd (never (ap (λ (r : Status × RequestParser). r.0) h))

else_waits :
    (c : Bool) (p : RequestParser) (y z : Status × RequestParser)
    → ¬ (y.0 ≡ need_more)
    → (if c then y else z) ≡ (need_more, p)
    → (c ≡ false) × (z ≡ (need_more, p))
else_waits true p y z never h = absurd (never (ap (λ (r : Status × RequestParser). r.0) h))
else_waits false p y z never h = (refl, h)

not_error : ¬ (error ≡ need_more)
not_error h = ground (arith, h)

not_complete : ¬ (complete ≡ need_more)
not_complete h = ground (arith, h)

after_head-more :
    (r : Parsed (HttpRequest × ℕ)) (p0 p : RequestParser) (b : Text)
    → after_head r p0 ≡ (need_more, p)
    → feed b p ≡ after_head r (record p0 { buffer = p0.buffer ++ b })
unfolding after_head read_body feed
after_head-more (bad status message) p0 p b h =
    absurd (not_error (ap (λ (r : Status × RequestParser). r.0) h))
after_head-more (good (req, n)) p0 p b h =
    let p1 = record p0 { request = req; body_expected = n; headers_done = true } in
    let waits = then_waits (ltb (length p0.buffer - p0.body_start) n) p1 p _ not_complete h in
    subst (λ p'. feed b p' ≡ after_head (good (req, n)) (record p0 { buffer = p0.buffer ++ b }))
      waits.1 refl

read_head-more :
    (a b : Text) (o : Option ℕ) (p : RequestParser)
    → find_end a ≡ o
    → read_head o (record fresh { buffer = a }) ≡ (need_more, p)
    → feed b p ≡ feed (a ++ b) fresh
unfolding read_head fresh feed
read_head-more a b none p at h =
    let waits =
      else_waits (ltb max_header_bytes (length a)) p _ (need_more, record fresh { buffer = a })
        not_error h in
    subst (λ p'. feed b p' ≡ feed (a ++ b) fresh) (ap (λ (r : Status × RequestParser). r.1) waits.1)
      refl
read_head-more a b (some end) p at h =
    let waits = else_waits (ltb max_header_bytes end) p _ _ not_error h in
    let inside : end ≤ length a = omega (arith, find_end-bound a end at) in
    let rest =
      after_head-more (parse_head (take end a) 0 fresh.request)
        (record fresh { buffer = a; body_start = end + 4 }) p b waits.1 in
    rest ∙ sym (rw (find_end-append a b end at) (rw waits.0 (rw (take-append end a b inside) refl)))

-- After `need_more`, a parser that has been given some bytes goes on as one that is given those
-- bytes and the next ones at once: with the same answer, and in the same state.
pub feed_more :
    (a b : Text) (p : RequestParser)
    → feed a fresh ≡ (need_more, p)
    → feed b p ≡ feed (a ++ b) fresh
unfolding feed fresh
feed_more a b p h = read_head-more a b (find_end a) p refl h

abbrev pub joined : List Text → Text
joined [] = []
joined (c ∷ cs) = c ++ joined cs

more-status : (r : Status × RequestParser) → wants_more r.0 ≡ true → r ≡ (need_more, r.1)
more-status (need_more, p) h = refl
more-status (complete, p) h = absurd (ground (arith, h))
more-status (error, p) h = absurd (ground (arith, h))

-- What is read from a list of pieces is read from the bytes of those that were taken, at once.
abbrev pub ReadsAs : (Status × RequestParser) × List Text → Text → List Text → Type 0
ReadsAs r before cs =
    (used : List Text) × (cs ≡ used ++ r.1) × (r.0 ≡ feed (before ++ joined used) fresh)

read_chunks-more :
    (p : RequestParser) (c : Text) (cs : List Text)
    → wants_more (feed c p).0 ≡ true
    → read_chunks p (c ∷ cs) ≡ read_chunks (feed c p).1 cs
unfolding read_chunks
read_chunks-more p c cs h = rw h refl

read_chunks-last :
    (p : RequestParser) (c : Text) (cs : List Text)
    → wants_more (feed c p).0 ≡ false
    → read_chunks p (c ∷ cs) ≡ (feed c p, cs)
unfolding read_chunks
read_chunks-last p c cs h = rw h refl

read_chunks_from :
    (a : Text) (p : RequestParser) (cs : List Text)
    → feed a fresh ≡ (need_more, p)
    → ReadsAs (read_chunks p cs) a cs
read_chunks_from a p [] h =
    ([], unfold read_chunks in refl, unfold read_chunks in (rw (append-nil a) (sym h)))
read_chunks_from a p (c ∷ cs) h =
    let more = feed_more a c p h in
    elim (Bool-cases (wants_more (feed c p).0)) [
      | inl waits ↦
          let next = sym more ∙ more-status (feed c p) waits in
          let rest = read_chunks_from (a ++ c) (feed c p).1 cs next in
          subst (λ r. ReadsAs r a (c ∷ cs)) (sym (read_chunks-more p c cs waits))
            (
              c ∷ rest.0,
              ap (λ ds. c ∷ ds) rest.1,
              rest.2 ∙ ap (λ s. feed s fresh) (append_assoc a c (joined rest.0)),
            )
      | inr ends ↦
          subst (λ r. ReadsAs r a (c ∷ cs)) (sym (read_chunks-last p c cs ends))
            (c ∷ [], refl, more ∙ ap (λ s. feed (a ++ s) fresh) (sym (append-nil c)))
    ]

-- The pieces in which the bytes of a request come do not matter. The loop takes some of the pieces,
-- leaves the others, and its answer and its parser are those of one call with the bytes of the
-- pieces it took.
pub read_chunks_lem : (cs : List Text) → ReadsAs (read_chunks fresh cs) [] cs
read_chunks_lem cs = read_chunks_from [] fresh cs (unfold feed fresh in refl)
