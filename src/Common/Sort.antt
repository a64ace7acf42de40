-- ===== src/Common/Sort.antt =====
-- `sorted(xs, key=...)` and `ORDER BY`: a stable sort by a number.
use Prim.Native.Nat.{ℕ, ◌≤◌, Ordering}
use Prim.Native.String.{String, compare}
use mathlib.Core.Bool.{Bool, true, false}
use mathlib.Core.List.{List, [], ◌∷◌}
use native.Mathlib.Omega.{arith}
use rygnal_core.Common.Tests.{leb, if◌then◌else◌}
use rygnal_core.Common.Lists.{All}

module _ {A : Type 0} (key : A → ℕ) where
  abbrev pub insert_by : A → List A → List A
  insert_by x [] = x ∷ []
  insert_by x (y ∷ ys) = if leb (key x) (key y) then x ∷ y ∷ ys else y ∷ insert_by x ys

  -- A row goes before the later rows with an equal key: the order of the rows is kept.
  abbrev pub sort_by : List A → List A
  sort_by [] = []
  sort_by (x ∷ xs) = insert_by x (sort_by xs)

  -- No later element has a smaller key.
  abbrev pub IsSorted : List A → Type 0
  IsSorted [] = Unit
  IsSorted (x ∷ xs) = All (λ y. key x ≤ key y) xs × IsSorted xs

module _ {A : Type 0} (key : A → ℕ) where
  All-insert_by :
      (P : A → Type 0) (x : A) (ys : List A) → P x → All P ys → All P (insert_by key x ys)
  All-insert_by P x [] p h = (p, tt)
  All-insert_by P x (y ∷ ys) p h = ground (arith, All-insert_by P x ys p h.1)

  pub All-sort_by : (P : A → Type 0) (xs : List A) → All P xs → All P (sort_by key xs)
  All-sort_by P [] h = tt
  All-sort_by P (x ∷ xs) h = All-insert_by P x (sort_by key xs) h.0 (All-sort_by P xs h.1)

  All-le_trans : (m n : ℕ) (ys : List A) → m ≤ n → All (λ y. n ≤ key y) ys → All (λ y. m ≤ key y) ys
  All-le_trans m n [] h a = tt
  All-le_trans m n (y ∷ ys) h a = (omega arith, All-le_trans m n ys h a.1)

  insert_by-IsSorted : (x : A) (ys : List A) → IsSorted key ys → IsSorted key (insert_by key x ys)
  insert_by-IsSorted x [] s = (tt, tt)
  insert_by-IsSorted x (y ∷ ys) s = ground (
    arith,
    insert_by-IsSorted x ys s.1,
    All-le_trans (key x) (key y) ys,
    All-insert_by (λ z. key y ≤ key z) x ys,
  )

  pub sort_by-IsSorted : (xs : List A) → IsSorted key (sort_by key xs)
  sort_by-IsSorted [] = tt
  sort_by-IsSorted (x ∷ xs) = insert_by-IsSorted x (sort_by key xs) (sort_by-IsSorted xs)

-- `sorted` with a text key, in the order of the characters' codes.
abbrev text_leb : String → String → Bool
text_leb a b = elim (compare a b) [ Ordering.gt ↦ false | _ ↦ true ]

module _ {A : Type 0} (key : A → String) where
  abbrev insert_by_text : A → List A → List A
  insert_by_text x [] = x ∷ []
  insert_by_text x (y ∷ ys) =
      if text_leb (key x) (key y) then x ∷ y ∷ ys else y ∷ insert_by_text x ys

  abbrev pub sort_by_text : List A → List A
  sort_by_text [] = []
  sort_by_text (x ∷ xs) = insert_by_text x (sort_by_text xs)
