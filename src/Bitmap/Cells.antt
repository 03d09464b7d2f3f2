-- ===== src/Bitmap/Cells.antt =====
-- Slices of words as lists of cells.
use access_management.Prelude.{
  ℕ, zero, suc, ◌-◌, ◌≤◌, ◌<◌, ◌≡◌, refl, ◌&&◌, List, [], ◌∷◌, ◌++◌, ◌==◌, ltb, length, arith,
  if◌then◌else◌,
}

-- ws[i]; out of range Go panics, and here reads 0. The bitmaps' invariant keeps indices in range.
unfoldable pub cell : List ℕ → ℕ → ℕ
cell [] i = 0
cell (w ∷ ws) zero = w
cell (w ∷ ws) (suc i) = cell ws i

-- ws[i] = f(ws[i])
unfoldable pub modify : ℕ → (ℕ → ℕ) → List ℕ → List ℕ
modify i f [] = []
modify zero f (w ∷ ws) = f w ∷ ws
modify (suc i) f (w ∷ ws) = w ∷ modify i f ws

unfoldable pub zeros : ℕ → List ℕ
zeros zero = []
zeros (suc n) = 0 ∷ zeros n

pub cell-modify :
    (i : ℕ) (f : ℕ → ℕ) (ws : List ℕ) (k : ℕ)
    → cell (modify i f ws) k ≡ (if i == k && ltb i (length ws) then f (cell ws k) else cell ws k)
unfolding cell modify
cell-modify i f [] k = ground arith
cell-modify zero f (w ∷ ws) zero = ground arith
cell-modify zero f (w ∷ ws) (suc k) = ground arith
cell-modify (suc i) f (w ∷ ws) zero = ground arith
cell-modify (suc i) f (w ∷ ws) (suc k) = ground (arith, cell-modify i f ws k)

pub length-modify : (i : ℕ) (f : ℕ → ℕ) (ws : List ℕ) → length (modify i f ws) ≡ length ws
unfolding modify
length-modify i f [] = refl
length-modify zero f (w ∷ ws) = refl
length-modify (suc i) f (w ∷ ws) = omega (arith, length-modify i f ws)

cell-zeros : (n k : ℕ) → cell (zeros n) k ≡ 0
unfolding cell zeros
cell-zeros zero k = refl
cell-zeros (suc n) zero = refl
cell-zeros (suc n) (suc k) = cell-zeros n k

pub length-zeros : (n : ℕ) → length (zeros n) ≡ n
unfolding zeros
length-zeros zero = refl
length-zeros (suc n) = omega (arith, length-zeros n)

pub cell-grown : (ws : List ℕ) (n k : ℕ) → cell (ws ++ zeros n) k ≡ cell ws k
unfolding cell
cell-grown [] n k = cell-zeros n k
cell-grown (w ∷ ws) n zero = refl
cell-grown (w ∷ ws) n (suc k) = cell-grown ws n k

pub cell_beyond : (ws : List ℕ) (k : ℕ) → length ws ≤ k → cell ws k ≡ 0
unfolding cell
cell_beyond [] k h = refl
cell_beyond (w ∷ ws) zero h = absurd (omega arith)
cell_beyond (w ∷ ws) (suc k) h = cell_beyond ws k (omega arith)

pub cell_of_rest :
    (m : ℕ) (ms : List ℕ) (i k : ℕ) → i < k → cell (m ∷ ms) (k - i) ≡ cell ms (k - suc i)
unfolding cell
cell_of_rest m ms i k h = let e : k - i ≡ suc (k - suc i) = omega arith in rw e refl
