-- ===== src/Common/Table.antt =====
-- A table of a database: rows in the order of insertion, selected by a text column.
use rygnal_core.Common.Tests.{◌==◌, if◌then◌else◌, Bool-cases}
use Prim.Native.Nat.{ℕ, ◌+◌}
use Prim.Native.String.{String}
use mathlib.Core.Path.{subst, ◌≡◌, refl}
use mathlib.Core.Logic.{inl, inr}
use mathlib.Core.Bool.{Bool, ◌&&◌}
use mathlib.Core.Option.{Option, none, some}
use mathlib.Core.List.{List, [], ◌∷◌, ◌++◌}
use native.Mathlib.Omega.{arith}
use text.Mathlib.TextEquality.{eq_iff}
use rygnal_core.Common.Lists.{All}

module _ {ℓ} {A : Type ℓ} where
  -- `DELETE FROM table WHERE p`
  abbrev pub delete_where : (A → Bool) → List A → List A
  delete_where p [] = []
  delete_where p (x ∷ xs) = let rest = delete_where p xs in if p x then rest else x ∷ rest

  -- `UPDATE table SET f WHERE p`
  abbrev pub update_where : (A → Bool) → (A → A) → List A → List A
  update_where p f [] = []
  update_where p f (x ∷ xs) = (if p x then f x else x) ∷ update_where p f xs

  -- `cursor.rowcount` of such a statement
  abbrev pub count_where : (A → Bool) → List A → ℕ
  count_where p [] = 0
  count_where p (x ∷ xs) = (if p x then 1 else 0) + count_where p xs

  abbrev pub kept : (A → Bool) → Option A → Option A
  kept p none = none
  kept p (some x) = if p x then none else some x

  abbrev pub changed : (A → Bool) → (A → A) → Option A → Option A
  changed p f none = none
  changed p f (some x) = some (if p x then f x else x)

  abbrev pub counted : (A → Bool) → Option A → ℕ
  counted p none = 0
  counted p (some x) = if p x then 1 else 0

module _ {A : Type 0} (key : A → String) where
  -- `SELECT * FROM table WHERE key = ?`, the first row
  abbrev pub find : String → List A → Option A
  find k [] = none
  find k (x ∷ xs) = if key x == k then some x else find k xs

  -- The column is a primary key.
  abbrev pub Unique : List A → Type 0
  Unique [] = Unit
  Unique (x ∷ xs) = (find (key x) xs ≡ none) × Unique xs

module _ {A : Type 0} (key : A → String) where
  -- A row that is found has the key.
  pub find-key : (k : String) (x : A) (xs : List A) → find key k xs ≡ some x → key x ≡ k
  find-key k x [] h = cc
  find-key k x (y ∷ xs) h = ground (arith, find-key k x xs, eq_iff (key y) k)

  pub find-delete_where :
      (p : A → Bool) (k : String) (xs : List A)
      → Unique key xs
      → find key k (delete_where p xs) ≡ kept p (find key k xs)
  find-delete_where p k [] u = refl
  find-delete_where p k (x ∷ xs) u = ground (arith, find-delete_where p k xs u.1, eq_iff (key x) k)

  pub find-update_where :
      (p : A → Bool) (f : A → A) (k : String) (xs : List A)
      → ((x : A) → key (f x) ≡ key x)
      → find key k (update_where p f xs) ≡ changed p f (find key k xs)
  find-update_where p f k [] same = refl
  find-update_where p f k (x ∷ xs) same = ground (arith, find-update_where p f k xs same, same x)

  pub find-append :
      (k : String) (x : A) (xs : List A)
      → find key k (xs ++ x ∷ [])
        ≡ elim (find key k xs) [ some y ↦ some y | none ↦ if key x == k then some x else none ]
  find-append k x [] = refl
  find-append k x (y ∷ xs) = ground (arith, find-append k x xs)

  pub count-find :
      (p : A → Bool) (k : String) (xs : List A)
      → Unique key xs
      → count_where (λ x. key x == k && p x) xs ≡ counted p (find key k xs)
  count-find p k [] u = refl
  count-find p k (x ∷ xs) u = ground (arith, count-find p k xs u.1, eq_iff (key x) k)

  pub Unique-delete_where :
      (p : A → Bool) (xs : List A) → Unique key xs → Unique key (delete_where p xs)
  Unique-delete_where p [] u = tt
  Unique-delete_where p (x ∷ xs) u =
      ground (arith, Unique-delete_where p xs u.1, find-delete_where p (key x) xs u.1)

  pub Unique-update_where :
      (p : A → Bool) (f : A → A) (xs : List A)
      → ((x : A) → key (f x) ≡ key x)
      → Unique key xs
      → Unique key (update_where p f xs)
  Unique-update_where p f [] same u = tt
  Unique-update_where p f (x ∷ xs) same u =
      ground
        (arith, Unique-update_where p f xs same u.1, find-update_where p f (key x) xs same, same x)

  pub Unique-append :
      (x : A) (xs : List A) → Unique key xs → find key (key x) xs ≡ none → Unique key (xs ++ x ∷ [])
  Unique-append x [] u h = (refl, tt)
  Unique-append x (y ∷ xs) u h = ground (
    arith,
    Unique-append x xs u.1,
    find-append (key y) x xs,
    eq_iff (key y) (key x),
    eq_iff (key x) (key y),
  )

  pub All-find :
      (P : A → Type 0) (k : String) (x : A) (xs : List A) → All P xs → find key k xs ≡ some x → P x
  All-find P k x [] h e = cc
  All-find P k x (y ∷ xs) h e = elim (Bool-cases (key y == k)) [
    | inl same ↦ subst P (ground arith) h.0
    | inr other ↦ All-find P k x xs h.1 (ground arith)
  ]
