-- ===== src/Rotation/Queries.antt =====
-- `orderBy('w.id', 'ASC')`, and the id of the last row of a batch.
use open_privy.Base.{ℕ, List, [], ◌∷◌, leb, if◌then◌else◌, All, arith}
use open_privy.Wallet.{Wallet}

insert_by_id : Wallet → List Wallet → List Wallet
insert_by_id w [] = w ∷ []
insert_by_id w (v ∷ vs) = if leb w.id v.id then w ∷ v ∷ vs else v ∷ insert_by_id w vs

unfoldable pub sort_by_id : List Wallet → List Wallet
unfolding insert_by_id
sort_by_id [] = []
sort_by_id (w ∷ ws) = insert_by_id w (sort_by_id ws)

unfoldable pub last_id : Wallet → List Wallet → ℕ
last_id w [] = w.id
last_id w (v ∷ vs) = last_id v vs

module _ (P : Wallet → Type 0) where
  insert_by_id-All : (w : Wallet) (ws : List Wallet) → P w → All P ws → All P (insert_by_id w ws)
  unfolding insert_by_id
  insert_by_id-All w [] p h = (p, tt)
  insert_by_id-All w (v ∷ vs) p h = ground (arith, insert_by_id-All w vs p h.1)

  pub sort_by_id-All : (ws : List Wallet) → All P ws → All P (sort_by_id ws)
  unfolding sort_by_id
  sort_by_id-All [] h = tt
  sort_by_id-All (w ∷ ws) (p, h) = insert_by_id-All w (sort_by_id ws) p (sort_by_id-All ws h)
