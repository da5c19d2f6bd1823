-- ===== src/AsyncTimer/Table.antt =====
-- `timerTasks_` as a table.
use lmcore.Prelude.{
  IfSome, Option, none, some, zero, suc, ℕ, ◌+◌, ◌≤◌, ◌<◌, ◌≡◌, refl, sym, ap, arith, false,
  if◌then◌else◌, ltb, leb, ◌==◌, ◌&&◌, not, List, [], ◌∷◌, All, Bool-cases, inl, inr, count,
  if-both,
}
use lmcore.AsyncTimer.{TimerTask, Entry, emplace, split_expired, put_back, take_at}

abbrev pub ids : List Entry → List ℕ
ids [] = []
ids (e ∷ es) = e.1 ∷ ids es

-- Each entry is due no later than those behind it.
abbrev pub IsSorted : List Entry → Type 0
IsSorted [] = Unit
IsSorted (e ∷ es) = All (λ f. e.0 ≤ f.0) es × IsSorted es

pub count-emplace :
    (j : ℕ) (es : List Entry) (e : Entry)
    → count j (ids (emplace es e)) ≡ (if e.1 == j then 1 else 0) + count j (ids es)
unfolding emplace
count-emplace j [] e = refl
count-emplace j (f ∷ es) e = ground (arith, count-emplace j es e)

emplace-All :
    (n : ℕ) (es : List Entry) (e : Entry)
    → n ≤ e.0
    → All (λ f. n ≤ f.0) es
    → All (λ f. n ≤ f.0) (emplace es e)
unfolding emplace
emplace-All n [] e h a = (h, tt)
emplace-All n (f ∷ es) e h a =
    if-both (All (λ f. n ≤ f.0)) (ltb e.0 f.0) (e ∷ f ∷ es) (f ∷ emplace es e) (λ b. (h, a))
      (λ b. (a.0, emplace-All n es e h a.1))

weaken : (m n : ℕ) (es : List Entry) → m ≤ n → All (λ f. n ≤ f.0) es → All (λ f. m ≤ f.0) es
weaken m n [] h a = tt
weaken m n (e ∷ es) h a = (omega (arith, a.0), weaken m n es h a.1)

pub emplace-IsSorted : (es : List Entry) (e : Entry) → IsSorted es → IsSorted (emplace es e)
unfolding emplace
emplace-IsSorted [] e s = (tt, tt)
emplace-IsSorted (f ∷ es) e s =
    if-both IsSorted (ltb e.0 f.0) (e ∷ f ∷ es) (f ∷ emplace es e)
      (λ b. ((ground arith, weaken e.0 f.0 es (ground arith) s.0), s))
      (λ b. (emplace-All f.0 es e (ground arith) s.0, emplace-IsSorted es e s.1))

-- The expired tasks of an entry, which are none or one.
abbrev pub expired_of : (ℕ → TimerTask) → Entry → List ℕ → List ℕ
expired_of ts e is = if (ts e.1).is_cancelled then is else e.1 ∷ is

pub count-expired_of :
    (ts : ℕ → TimerTask) (e : Entry) (is : List ℕ) (j : ℕ)
    → ((ts j).is_cancelled ≡ false
        → count j (expired_of ts e is) ≡ (if e.1 == j then 1 else 0) + count j is)
      × (count j (expired_of ts e is) ≤ (if e.1 == j then 1 else 0) + count j is)
count-expired_of ts e is j = elim (Bool-cases (e.1 == j)) [
  | inl b ↦ let same : e.1 ≡ j = ground arith in ((λ live. grind arith), grind arith)
  | inr b ↦ ((λ live. grind arith), grind arith)
]

pub count-split_expired :
    (ts : ℕ → TimerTask) (now : ℕ) (es : List Entry) (j : ℕ)
    → ((ts j).is_cancelled ≡ false
        → count j (split_expired ts now es).0 + count j (ids (split_expired ts now es).1)
          ≡ count j (ids es))
      × (count j (split_expired ts now es).0 + count j (ids (split_expired ts now es).1)
          ≤ count j (ids es))
unfolding split_expired
count-split_expired ts now [] j = ((λ live. refl), omega arith)
count-split_expired ts now (e ∷ es) j =
    let (same, less) = count-split_expired ts now es j in
    let (x, y) = count-expired_of ts e (split_expired ts now es).0 j in
    elim (Bool-cases (leb e.0 now)) [
      | inl b ↦ rw b ((λ live. omega (arith, same live, x live)), omega (arith, less, y))
      | inr b ↦ rw b ((λ live. omega arith), omega arith)
    ]

pub split_expired-IsSorted :
    (ts : ℕ → TimerTask) (now : ℕ) (es : List Entry)
    → IsSorted es
    → IsSorted (split_expired ts now es).1
unfolding split_expired
split_expired-IsSorted ts now [] s = tt
split_expired-IsSorted ts now (e ∷ es) s = elim (Bool-cases (leb e.0 now)) [
  | inl b ↦ rw b (split_expired-IsSorted ts now es s.1)
  | inr b ↦ rw b s
]

-- What is expired at a time, by its definition.
abbrev pub due : (ℕ → TimerTask) → ℕ → List Entry → List ℕ
due ts now [] = []
due ts now (e ∷ es) =
    if leb e.0 now && not (ts e.1).is_cancelled then e.1 ∷ due ts now es else due ts now es

none_due :
    (ts : ℕ → TimerTask) (now n : ℕ) (es : List Entry)
    → now < n
    → All (λ f. n ≤ f.0) es
    → (due ts now es ≡ []) × All (λ f. now < f.0) es
none_due ts now n [] h a = (refl, tt)
none_due ts now n (e ∷ es) h a =
    let late : leb e.0 now ≡ false = ground (arith, a.0) in
    let (x, y) = none_due ts now n es h a.1 in (rw late x, (ground arith, y))

-- The loop stops at the first entry that is due later.
pub split_expired_lem :
    (ts : ℕ → TimerTask) (now : ℕ) (es : List Entry)
    → IsSorted es
    → ((split_expired ts now es).0 ≡ due ts now es)
      × All (λ f. now < f.0) (split_expired ts now es).1
unfolding split_expired
split_expired_lem ts now [] s = (refl, tt)
split_expired_lem ts now (e ∷ es) s =
    let (x, y) = split_expired_lem ts now es s.1 in
    elim (Bool-cases (leb e.0 now)) [
      | inl b ↦ elim (Bool-cases (ts e.1).is_cancelled) [
        | inl c ↦ rw (b, c) (x, y)
        | inr c ↦ rw (b, c) (ap (λ k. e.1 ∷ k) x, y)
      ]
      | inr b ↦
          let (p, q) = none_due ts now e.0 es (ground arith) s.0 in rw b (sym p, (ground arith, q))
    ]

pub count-take_at :
    (j k : ℕ) (xs : List ℕ)
    → IfSome (λ r. (if r.0 == j then 1 else 0) + count j r.1 ≡ count j xs) (take_at k xs)
count-take_at j k [] = tt
count-take_at j zero (x ∷ xs) = refl
count-take_at j (suc k) (x ∷ xs) = more (take_at k xs) (count-take_at j k xs)
  where
    more :
        (o : Option (ℕ × List ℕ))
        → IfSome (λ r. (if r.0 == j then 1 else 0) + count j r.1 ≡ count j xs) o
        → IfSome (λ r. (if r.0 == j then 1 else 0) + count j r.1 ≡ count j (x ∷ xs)) (put_back x o)
    more none h = tt
    more (some r) h = omega (arith, h)
