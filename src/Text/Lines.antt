-- ===== src/Text/Lines.antt =====
-- Lines as a command prints them, and what trimming and splitting make of them.
use mathlib.Core.List.{reverse, reverse-append, reverse-reverse}
use autoscaler.Common.{
  ==_iff, All, All-append, List, [], ap, append-nil, append_assoc, arith, false, map, refl, subst,
  suc, sym, zero, ℕ, ◌++◌, ◌==◌, ◌∙◌, ◌∷◌, ◌≡◌, ◌≢◌,
}
use autoscaler.Text.{
  Bytes, is_empty, is_space, split, split_at_most, split_from, trim_left, trim_space,
}

-- A text without white space that is not empty.
abbrev pub IsWord : Bytes → Type 0
IsWord s = (s ≢ []) × All (λ c. is_space c ≡ false) s

-- No byte of the text is this one.
abbrev pub Lacks : ℕ → Bytes → Type 0
Lacks sep = All (λ c. (c == sep) ≡ false)

-- Every line, with a newline behind it.
abbrev pub printed : List Bytes → Bytes
printed [] = []
printed (l ∷ ls) = l ++ (b'\n' ∷ printed ls)

-- The lines with a newline between them.
abbrev between : List Bytes → Bytes
between [] = []
between (l ∷ []) = l
between (l ∷ k ∷ ls) = l ++ (b'\n' ∷ between (k ∷ ls))

printed-between : (l : Bytes) (ls : List Bytes) → printed (l ∷ ls) ≡ between (l ∷ ls) ++ b'\n' ∷ []
printed-between l [] = refl
printed-between l (k ∷ ls) =
    ap (λ s. l ++ (b'\n' ∷ s)) (printed-between k ls)
    ∙ sym (append_assoc l (b'\n' ∷ between (k ∷ ls)) (b'\n' ∷ []))

-- Texts that begin, or end, with a byte that is no white space.
abbrev pub Starts : Bytes → Type 0
Starts [] = ⊥
Starts (c ∷ s) = is_space c ≡ false

abbrev pub Ends : Bytes → Type 0
Ends s = Starts (reverse s)

trim_left-Starts : (s : Bytes) → Starts s → trim_left s ≡ s
trim_left-Starts [] h = elim h [ ]
trim_left-Starts (c ∷ s) h = rw h refl

Starts-append : (s t : Bytes) → Starts s → Starts (s ++ t)
Starts-append [] t h = elim h [ ]
Starts-append (c ∷ s) t h = h

pub Ends-append : (s t : Bytes) → Ends t → Ends (s ++ t)
Ends-append s t h = rw (reverse-append s t) (Starts-append (reverse t) (reverse s) h)

-- Trimming what was printed drops the last newline.
trim-newline : (s : Bytes) → Starts s → Ends s → trim_space (s ++ b'\n' ∷ []) ≡ s
unfolding trim_space
trim-newline s h k =
    ap (λ x. reverse (trim_left (reverse x)))
      (trim_left-Starts (s ++ b'\n' ∷ []) (Starts-append s (b'\n' ∷ []) h))
    ∙ ap (λ x. reverse (trim_left x)) (reverse-append s (b'\n' ∷ []))
    ∙ ap reverse (trim_left-Starts (reverse s) k)
    ∙ reverse-reverse s

split_from-none : (sep : ℕ) (cur s : Bytes) → Lacks sep s → split_from sep cur s ≡ (cur ++ s) ∷ []
unfolding split_from
split_from-none sep cur [] h = ap (λ x. x ∷ []) (sym (append-nil cur))
split_from-none sep cur (c ∷ s) h =
    rw (h.0, split_from)
      (split_from-none sep (cur ++ c ∷ []) s h.1 ∙ ap (λ x. x ∷ []) (append_assoc cur (c ∷ []) s))

split_from-part :
    (sep : ℕ) (cur s t : Bytes)
    → Lacks sep s
    → split_from sep cur (s ++ (sep ∷ t)) ≡ (cur ++ s) ∷ split_from sep [] t
unfolding split_from
split_from-part sep cur [] t h =
    rw ((==_iff sep sep).1 refl, split_from)
      (ap (λ x. x ∷ split_from sep [] t) (sym (append-nil cur)))
split_from-part sep cur (c ∷ s) t h =
    rw (h.0, split_from)
      (split_from-part sep (cur ++ c ∷ []) s t h.1
        ∙ ap (λ x. x ∷ split_from sep [] t) (append_assoc cur (c ∷ []) s))

between-Starts : (l : Bytes) (ls : List Bytes) → Starts l → Starts (between (l ∷ ls))
between-Starts l [] h = h
between-Starts l (k ∷ ls) h = Starts-append l (b'\n' ∷ between (k ∷ ls)) h

-- The last line decides how a printed list ends.
pub between-Ends : (l : Bytes) (ls : List Bytes) → Ends l → All Ends ls → Ends (between (l ∷ ls))
between-Ends l [] h k = h
between-Ends l (x ∷ ls) h k =
    Ends-append l (b'\n' ∷ between (x ∷ ls))
      (Ends-append (b'\n' ∷ []) (between (x ∷ ls)) (between-Ends x ls k.0 k.1))

split-between :
    (l : Bytes) (ls : List Bytes)
    → Lacks b'\n' l
    → All (Lacks b'\n') ls
    → split (between (l ∷ ls)) b'\n' ≡ l ∷ ls
unfolding split
split-between l [] h k = split_from-none b'\n' [] l h
split-between l (x ∷ ls) h k =
    split_from-part b'\n' [] l (between (x ∷ ls)) h ∙ ap (λ r. l ∷ r) (split-between x ls k.0 k.1)

-- What docker prints, trimmed and split into lines, are the lines again, where the first begins and
-- the last ends with a byte that is no white space, and none holds a newline.
pub split-printed :
    (l : Bytes) (ls : List Bytes)
    → Starts l
    → Ends (between (l ∷ ls))
    → Lacks b'\n' l
    → All (Lacks b'\n') ls
    → split (trim_space (printed (l ∷ ls))) b'\n' ≡ l ∷ ls
split-printed l ls first last h k =
    ap (λ s. split s b'\n')
      (ap trim_space (printed-between l ls)
        ∙ trim-newline (between (l ∷ ls)) (between-Starts l ls first) last)
    ∙ split-between l ls h k

-- A part in front of a separator, and the last part, of a text that is split into few parts.
pub split_at_most-part :
    (n sep : ℕ) (cur s t : Bytes)
    → Lacks sep s
    → split_at_most (suc n) sep cur (s ++ (sep ∷ t)) ≡ (cur ++ s) ∷ split_at_most n sep [] t
unfolding split_at_most
split_at_most-part n sep cur [] t h =
    rw ((==_iff sep sep).1 refl, split_at_most)
      (ap (λ x. x ∷ split_at_most n sep [] t) (sym (append-nil cur)))
split_at_most-part n sep cur (c ∷ s) t h =
    rw (h.0, split_at_most)
      (split_at_most-part n sep (cur ++ c ∷ []) s t h.1
        ∙ ap (λ x. x ∷ split_at_most n sep [] t) (append_assoc cur (c ∷ []) s))

pub split_at_most-rest : (sep : ℕ) (s : Bytes) → split_at_most zero sep [] s ≡ s ∷ []
unfolding split_at_most
split_at_most-rest sep [] = refl
split_at_most-rest sep (c ∷ s) = refl

-- A word, also in front of other text.
pub Starts-word : (s t : Bytes) → IsWord s → Starts (s ++ t)
Starts-word [] t h = absurd (h.0 refl)
Starts-word (c ∷ s) t h = h.1.0

All-reverse :
    (s : Bytes) → All (λ c. is_space c ≡ false) s → All (λ c. is_space c ≡ false) (reverse s)
All-reverse [] h = tt
All-reverse (c ∷ s) h =
    subst (All (λ c. is_space c ≡ false)) (sym (reverse-append (c ∷ []) s))
      (All-append (λ c. is_space c ≡ false) (reverse s) (c ∷ []) (All-reverse s h.1) (h.0, tt))

Starts_lem : (s : Bytes) → s ≢ [] → All (λ c. is_space c ≡ false) s → Starts s
Starts_lem [] ne h = absurd (ne refl)
Starts_lem (c ∷ s) ne h = h.0

pub Ends-word : (s : Bytes) → IsWord s → Ends s
Ends-word s h =
    Starts_lem (reverse s) (λ e. h.0 (sym (reverse-reverse s) ∙ ap reverse e)) (All-reverse s h.1)

pub Lacks-newline : (s : Bytes) → All (λ c. is_space c ≡ false) s → Lacks b'\n' s
Lacks-newline [] h = tt
Lacks-newline (c ∷ s) h = (ground arith, Lacks-newline s h.1)

pub Lacks-tab : (s : Bytes) → All (λ c. is_space c ≡ false) s → Lacks b'\t' s
Lacks-tab [] h = tt
Lacks-tab (c ∷ s) h = (ground arith, Lacks-tab s h.1)

pub trim-word : (s : Bytes) → IsWord s → trim_space s ≡ s
unfolding trim_space
trim-word s h =
    ap (λ x. reverse (trim_left (reverse x)))
      (trim_left-Starts s (subst Starts (append-nil s) (Starts-word s [] h)))
    ∙ ap reverse (trim_left-Starts (reverse s) (Ends-word s h))
    ∙ reverse-reverse s

pub Lacks-append : (sep : ℕ) (s t : Bytes) → Lacks sep s → Lacks sep t → Lacks sep (s ++ t)
Lacks-append sep s t h k = All-append (λ c. (c == sep) ≡ false) s t h k

pub not_empty : (s : Bytes) → Starts s → is_empty s ≡ false
not_empty [] h = elim h [ ]
not_empty (c ∷ s) h = refl

-- The lines of things that are well-formed, each printed on one line.
module _ {A : Type 0} (Good : A → Type 0) (f : A → Bytes) where
  All-map :
      (P : Bytes → Type 0) (xs : List A)
      → ((x : A) → Good x → P (f x))
      → All Good xs
      → All P (map f xs)
  All-map P [] g h = tt
  All-map P (x ∷ xs) g h = (g x h.0, All-map P xs g h.1)

  pub lines_lem :
      (x : A) (xs : List A)
      → ((y : A) → Good y → Starts (f y))
      → ((y : A) → Good y → Ends (f y))
      → ((y : A) → Good y → Lacks b'\n' (f y))
      → All Good (x ∷ xs)
      → split (trim_space (printed (map f (x ∷ xs)))) b'\n' ≡ map f (x ∷ xs)
  lines_lem x xs starts ends lacks h =
      split-printed (f x) (map f xs) (starts x h.0)
        (between-Ends (f x) (map f xs) (ends x h.0) (All-map Ends xs ends h.1)) (lacks x h.0)
        (All-map (Lacks b'\n') xs lacks h.1)
