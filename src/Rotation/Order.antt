-- ===== src/Rotation/Order.antt =====
-- The order of the batches of key-rotation.ts: the ids after the last one.
use open_privy.Base.{
  ℕ, ◌≤◌, ◌<◌, Text, length, true, ◌&&◌, List, [], ◌∷◌, ◌≡◌, inl, inr, arith, Bool-cases, All, ltb,
  ltb→lt, ◌==◌, filter_by, count_by, any_by, All-take,
}
use open_privy.Wallet.{Wallet}
use open_privy.Rotation.{is_pending, take_rows, next_batch}
use open_privy.Rotation.Queries.{last_id, sort_by_id-All}

-- The rows after `last`, by which a run measures what is left.
unfoldable pub rows_after : ℕ → List Wallet → ℕ
rows_after last = count_by (λ r. ltb last r.id)

rows_after-anti : (l l' : ℕ) (ws : List Wallet) → l ≤ l' → rows_after l' ws ≤ rows_after l ws
unfolding rows_after
rows_after-anti l l' [] h = omega arith
rows_after-anti l l' (w ∷ ws) h = ground (arith, rows_after-anti l l' ws h)

pub rows_after-lt :
    (l l' : ℕ) (ws : List Wallet)
    → l < l'
    → any_by (λ r. r.id == l') ws ≡ true
    → rows_after l' ws < rows_after l ws
unfolding rows_after
rows_after-lt l l' [] h e = cc
rows_after-lt l l' (w ∷ ws) h e =
    ground (arith, rows_after-lt l l' ws h, rows_after-anti l l' ws (omega arith))

pub rows_after-le-length : (l : ℕ) (ws : List Wallet) → rows_after l ws ≤ length ws
unfolding rows_after
rows_after-le-length l [] = omega arith
rows_after-le-length l (w ∷ ws) = ground (arith, rows_after-le-length l ws)

-- An id that the query may return after `last`.
abbrev pub IsNext : ℕ → List Wallet → Wallet → Type 0
IsNext last ws r = (last < r.id) × (any_by (λ x. x.id == r.id) ws ≡ true)

IsNext-cons :
    (last : ℕ) (w : Wallet) (ws rs : List Wallet)
    → All (IsNext last ws) rs
    → All (IsNext last (w ∷ ws)) rs
IsNext-cons last w ws [] h = tt
IsNext-cons last w ws (r ∷ rs) h = (ground arith, IsNext-cons last w ws rs h.1)

filter_by-IsNext :
    (current : Text) (last : ℕ) (ws : List Wallet)
    → All (IsNext last ws) (filter_by (λ w. ltb last w.id && is_pending current w) ws)
filter_by-IsNext current last [] = tt
filter_by-IsNext current last (w ∷ ws) =
    let rest = IsNext-cons last w ws _ (filter_by-IsNext current last ws) in
    elim (Bool-cases (ltb last w.id && is_pending current w)) [
      | inl hit ↦ rw hit ((ltb→lt last w.id (ground arith), ground arith), rest)
      | inr miss ↦ rw miss rest
    ]

pub All-take_rows :
    (P : Wallet → Type 0) (size : ℕ) (ws : List Wallet) → All P ws → All P (take_rows size ws)
unfolding take_rows
All-take_rows P size ws h = elim (Bool-cases (size == 0)) [
  | inl none_ ↦ rw none_ h
  | inr some_ ↦ rw some_ (All-take P size ws h)
]

pub next_batch-IsNext :
    (current : Text) (last size : ℕ) (ws : List Wallet)
    → All (IsNext last ws) (next_batch current last size ws)
unfolding next_batch
next_batch-IsNext current last size ws =
    All-take_rows _ size _ (sort_by_id-All _ _ (filter_by-IsNext current last ws))

pub last_id-IsNext :
    (last : ℕ) (table : List Wallet) (w : Wallet) (ws : List Wallet)
    → All (IsNext last table) (w ∷ ws)
    → (last < last_id w ws) × (any_by (λ x. x.id == last_id w ws) table ≡ true)
unfolding last_id
last_id-IsNext last table w [] h = h.0
last_id-IsNext last table w (v ∷ vs) h = last_id-IsNext last table v vs h.1
