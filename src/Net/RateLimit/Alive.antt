-- ===== src/Net/RateLimit/Alive.antt =====
-- Counting the times in a window, and those that are still in it.
use cherry_wiki.Base.{
  ℕ, ◌+◌, ◌≤◌, List, [], ◌∷◌, ltb, leb, length, ◌&&◌, if◌then◌else◌, ◌≡◌, refl, arith,
}
use cherry_wiki.Net.RateLimit.{remove_old}

-- The times of a list in the window that ends at `t`: after t - window, and not after t.
abbrev pub in_window : ℕ → ℕ → List ℕ → ℕ
in_window window t [] = 0
in_window window t (a ∷ xs) =
    (if ltb t (a + window) && leb a t then 1 else 0) + in_window window t xs

-- The times that are still in a window at `t`, whether or not they have come.
abbrev pub alive : ℕ → ℕ → List ℕ → ℕ
alive window t [] = 0
alive window t (a ∷ xs) = (if ltb t (a + window) then 1 else 0) + alive window t xs

unfoldable pub AllUpTo : ℕ → List ℕ → Type 0
AllUpTo last [] = Unit
AllUpTo last (a ∷ xs) = (a ≤ last) × AllUpTo last xs

pub AllUpTo-mono : (last now : ℕ) (xs : List ℕ) → last ≤ now → AllUpTo last xs → AllUpTo now xs
unfolding AllUpTo
AllUpTo-mono last now [] le h = tt
AllUpTo-mono last now (a ∷ xs) le (b, h) = (omega arith, AllUpTo-mono last now xs le h)

pub in_window-alive : (window t : ℕ) (xs : List ℕ) → in_window window t xs ≤ alive window t xs
in_window-alive window t [] = omega arith
in_window-alive window t (a ∷ xs) = ground (arith, in_window-alive window t xs)

pub alive-remove_old :
    (window now t : ℕ) (xs : List ℕ)
    → now ≤ t
    → alive window t (remove_old now window xs) ≡ alive window t xs
alive-remove_old window now t [] le = refl
alive-remove_old window now t (a ∷ xs) le = ground (arith, alive-remove_old window now t xs le)

pub alive-le-length : (window t : ℕ) (xs : List ℕ) → alive window t xs ≤ length xs
alive-le-length window t [] = omega arith
alive-le-length window t (a ∷ xs) = ground (arith, alive-le-length window t xs)

pub alive_none :
    (window last t : ℕ) (xs : List ℕ) → AllUpTo last xs → last + window ≤ t → alive window t xs ≡ 0
unfolding AllUpTo
alive_none window last t [] h le = refl
alive_none window last t (a ∷ xs) (b, h) le = ground (arith, alive_none window last t xs h le)
