-- ===== src/Http/Lines.antt =====
-- The lines of a head: where they end, how they are split, and what `trim` leaves of them.
use distributed_job_engine.Prelude.{
  ℕ, suc, ◌+◌, ◌<◌, ◌≡◌, refl, sym, ap, ◌∙◌, false, some, List, [], ◌∷◌, ◌++◌, All, ◌==◌, length,
  length-append, is_nil, Text, arith,
}
use mathlib.Core.List.{append_assoc, append-nil}
use distributed_job_engine.Util.{trim, trim_left, trim_right, split, put_first, starts_with}
use distributed_job_engine.Http.{cut}
use distributed_job_engine.Http.Feed.{blank_line, find_end}
use distributed_job_engine.Http.Chunks.{find_end-later, next}

-- A byte that may stand within a line, and one that is no space either.
abbrev pub InLine : ℕ → Type 0
InLine c = 31 < c

abbrev pub Visible : ℕ → Type 0
Visible c = 32 < c

-- The first line and the others, with the line ends between them.
unfoldable pub head_text : Text → List Text → Text
head_text l [] = l
head_text l (m ∷ ms) = l ++ 13 ∷ 10 ∷ head_text m ms

-- The same lines as `split` gives them.
unfoldable pub split_lines : Text → List Text → List Text
split_lines l [] = l ∷ []
split_lines l (m ∷ ms) = (l ++ 13 ∷ []) ∷ split_lines m ms

abbrev pub IsLine : Text → Type 0
IsLine l = All InLine l × (is_nil l ≡ false)

crlf_only :
    (s : Text) → starts_with s (13 ∷ []) ≡ false → starts_with (13 ∷ 10 ∷ s) blank_line ≡ false
unfolding starts_with
crlf_only [] h = refl
crlf_only (c ∷ s) h = ground (arith, h)

find_end-cons :
    (c : ℕ) (s : Text) (n : ℕ)
    → starts_with (c ∷ s) blank_line ≡ false
    → find_end s ≡ some n
    → find_end (c ∷ s) ≡ some (suc n)
find_end-cons c s n other h = find_end-later c s other ∙ ap next h

find_end-InLine :
    (c : ℕ) (s : Text) (n : ℕ) → InLine c → find_end s ≡ some n → find_end (c ∷ s) ≡ some (suc n)
find_end-InLine c s n inside h =
    find_end-later c s (unfold starts_with in ground (arith, inside)) ∙ ap next h

pub find_end-line :
    (l s : Text) (n : ℕ)
    → All InLine l
    → find_end s ≡ some n
    → find_end (l ++ s) ≡ some (length l + n)
find_end-line [] s n inside h = h ∙ ap some (omega arith)
find_end-line (c ∷ l) s n inside h =
    find_end-InLine c (l ++ s) (length l + n) inside.0 (find_end-line l s n inside.1 h)
    ∙ ap some (omega arith)

-- A line end that another line follows.
find_end-crlf :
    (s : Text) (n : ℕ)
    → starts_with s (13 ∷ []) ≡ false
    → find_end s ≡ some n
    → find_end (13 ∷ 10 ∷ s) ≡ some (2 + n)
find_end-crlf s n other h =
    find_end-later 13 (10 ∷ s) (crlf_only s other)
    ∙ ap next (find_end-cons 10 s n (unfold starts_with in refl) h)
    ∙ ap some (omega arith)

head_text-starts :
    (l : Text) (ls : List Text) (s : Text)
    → IsLine l
    → starts_with (head_text l ls ++ s) (13 ∷ []) ≡ false
unfolding head_text starts_with
head_text-starts [] ls s line = absurd (ground (arith, line.1))
head_text-starts (c ∷ l) [] s line = ground (arith, line.0.0)
head_text-starts (c ∷ l) (m ∷ ms) s line = ground (arith, line.0.0)

pub find_end-head_text :
    (l : Text) (ls : List Text) (body : Text)
    → IsLine l
    → All IsLine ls
    → find_end (head_text l ls ++ (blank_line ++ body)) ≡ some (length (head_text l ls))
unfolding head_text
find_end-head_text l [] body line lines =
    find_end-line l (blank_line ++ body) 0 line.0 (unfold find_end starts_with in refl)
    ∙ ap some (omega arith)
find_end-head_text l (m ∷ ms) body line lines =
    let rest = find_end-head_text m ms body lines.0 lines.1 in
    let behind = head_text m ms ++ (blank_line ++ body) in
    let crlf =
      find_end-crlf behind (length (head_text m ms)) (head_text-starts m ms _ lines.0) rest in
    ap find_end (append_assoc l (13 ∷ 10 ∷ head_text m ms) (blank_line ++ body))
    ∙ find_end-line l (13 ∷ 10 ∷ behind) _ line.0 crlf
    ∙ ap some (omega (arith, length-append l (13 ∷ 10 ∷ head_text m ms)))

split-put :
    (l s : Text) (w : Text) (ws : List Text)
    → All InLine l
    → split 10 s ≡ w ∷ ws
    → split 10 (l ++ s) ≡ (l ++ w) ∷ ws
unfolding split
split-put [] s w ws inside h = h
split-put (c ∷ l) s w ws inside h =
    let rest = split-put l s w ws inside.1 h in
    let other : (c == 10) ≡ false = ground (arith, inside.0) in rw other (ap (put_first c) rest)

split-crlf : (s : Text) → split 10 (13 ∷ 10 ∷ s) ≡ (13 ∷ []) ∷ split 10 s
unfolding split
split-crlf s = refl

pub split-head_text :
    (l : Text) (ls : List Text)
    → IsLine l
    → All IsLine ls
    → split 10 (head_text l ls) ≡ split_lines l ls
unfolding head_text split_lines
split-head_text l [] line lines =
    ap (split 10) (sym (append-nil l))
    ∙ split-put l [] [] [] line.0 (unfold split in refl)
    ∙ ap (λ w. w ∷ []) (append-nil l)
split-head_text l (m ∷ ms) line lines =
    let rest = split-head_text m ms lines.0 lines.1 in
    split-put l (13 ∷ 10 ∷ head_text m ms) (13 ∷ []) (split_lines m ms) line.0
      (split-crlf (head_text m ms) ∙ ap (λ ws. (13 ∷ []) ∷ ws) rest)

pub append_full : (a b : Text) → is_nil b ≡ false → is_nil (a ++ b) ≡ false
append_full [] b h = h
append_full (c ∷ a) b h = refl

pub trim_right-append :
    (a b : Text) → trim_right b ≡ b → is_nil b ≡ false → trim_right (a ++ b) ≡ a ++ b
unfolding trim_right
trim_right-append [] b h full = h
trim_right-append (c ∷ a) b h full =
    let rest = trim_right-append a b h full in
    let more : is_nil (trim_right (a ++ b)) ≡ false = ap is_nil rest ∙ append_full a b full in
    ground (arith, rest, more)

pub trim_right-Visible : (w : Text) → All Visible w → trim_right w ≡ w
unfolding trim_right
trim_right-Visible [] h = refl
trim_right-Visible (c ∷ w) h = ground (arith, trim_right-Visible w h.1, h.0)

trim_right-cr : (l : Text) → trim_right (l ++ 13 ∷ []) ≡ trim_right l
unfolding trim_right
trim_right-cr [] = refl
trim_right-cr (c ∷ l) = rw (trim_right-cr l) refl

-- A line that begins with a visible byte is trimmed of a carriage return behind it only.
pub trim_cr :
    (c : ℕ) (l : Text) → Visible c → trim_right (c ∷ l) ≡ c ∷ l → trim (c ∷ l ++ 13 ∷ []) ≡ c ∷ l
unfolding trim trim_left
trim_cr c l inside h =
    let left : trim_left (c ∷ l ++ 13 ∷ []) ≡ c ∷ l ++ 13 ∷ [] = ground (arith, inside) in
    ap trim_right left ∙ trim_right-cr (c ∷ l) ∙ h

pub trim_line : (c : ℕ) (l : Text) → Visible c → trim_right (c ∷ l) ≡ c ∷ l → trim (c ∷ l) ≡ c ∷ l
unfolding trim trim_left
trim_line c l inside h =
    let left : trim_left (c ∷ l) ≡ c ∷ l = ground (arith, inside) in ap trim_right left ∙ h

pub cut-Visible : (w s : Text) → All Visible w → cut 32 (w ++ 32 ∷ s) ≡ some (w, s)
unfolding cut
cut-Visible [] s h = refl
cut-Visible (c ∷ w) s h =
    let rest = cut-Visible w s h.1 in
    let other : (c == 32) ≡ false = ground (arith, h.0) in rw other (rw rest refl)
