-- ===== src/Base/Lists.antt =====
-- Lists over the native numbers, membership of texts, and predicates on all elements.
use Prim.Native.Nat.{ℕ, zero, suc, ◌+◌, ◌≤◌}
use Prim.Native.String.{String}
use mathlib.Core.Path.{◌≡◌, refl}
use mathlib.Core.Bool.{Bool, true, false}
use mathlib.Core.Option.{Option, none, some}
use mathlib.Core.List.{List, [], ◌∷◌, ◌++◌}
use native.Mathlib.Omega.{arith}
use text.Mathlib.TextEquality.{eq_iff}
use pixie_block.Base.Tests.{⊤, nat_eq, ◌==◌, if◌then◌else◌}

module _ {ℓ} {A : Type ℓ} where
  abbrev pub length : List A → ℕ
  length [] = 0
  length (x ∷ xs) = suc (length xs)

  abbrev pub take : ℕ → List A → List A
  take zero xs = []
  take (suc n) [] = []
  take (suc n) (x ∷ xs) = x ∷ take n xs

  abbrev pub drop : ℕ → List A → List A
  drop zero xs = xs
  drop (suc n) [] = []
  drop (suc n) (x ∷ xs) = drop n xs

  abbrev pub get_elem? : List A → ℕ → Option A
  get_elem? [] n = none
  get_elem? (x ∷ xs) zero = some x
  get_elem? (x ∷ xs) (suc n) = get_elem? xs n

  -- The last element, or the one given for an empty list.
  abbrev pub last_or : A → List A → A
  last_or a [] = a
  last_or a (x ∷ xs) = last_or x xs

  pub last_or-append : (a x : A) (xs : List A) → last_or a (xs ++ x ∷ []) ≡ x
  last_or-append a x [] = refl
  last_or-append a x (y ∷ xs) = last_or-append y x xs

  pub length-append : (xs ys : List A) → length (xs ++ ys) ≡ length xs + length ys
  length-append [] ys = omega arith
  length-append (x ∷ xs) ys = omega (arith, length-append xs ys)

  pub length-take-le : (n : ℕ) (xs : List A) → length (take n xs) ≤ n
  length-take-le zero xs = omega arith
  length-take-le (suc n) [] = omega arith
  length-take-le (suc n) (x ∷ xs) = omega (arith, length-take-le n xs)

  abbrev pub filter_by : (A → Bool) → List A → List A
  filter_by p [] = []
  filter_by p (x ∷ xs) = if p x then x ∷ filter_by p xs else filter_by p xs

module _ {ℓ κ} {A : Type ℓ} (P : A → Type κ) where
  abbrev pub All : List A → Type κ
  All [] = Unit
  All (x ∷ xs) = P x × All xs

  pub All-append : (xs ys : List A) → All xs → All ys → All (xs ++ ys)
  All-append [] ys h k = k
  All-append (x ∷ xs) ys h k = (h.0, All-append xs ys h.1 k)

-- Is the text in the list?
abbrev pub member : String → List String → Bool
member k [] = false
member k (x ∷ xs) = if x == k then true else member k xs

-- No text stands twice.
abbrev pub IsDistinct : List String → Type 0
IsDistinct [] = ⊤
IsDistinct (x ∷ xs) = (member x xs ≡ false) × IsDistinct xs

pub member-append :
    (k : String) (xs ys : List String)
    → member k (xs ++ ys) ≡ (if member k xs then true else member k ys)
member-append k [] ys = refl
member-append k (x ∷ xs) ys = ground (arith, member-append k xs ys)

pub member-filter_by :
    (p : String → Bool) (k : String) (xs : List String)
    → member k (filter_by p xs) ≡ (if p k then member k xs else false)
member-filter_by p k [] = ground arith
member-filter_by p k (x ∷ xs) = ground (arith, eq_iff x k, member-filter_by p k xs)

pub filter_by-IsDistinct :
    (p : String → Bool) (xs : List String) → IsDistinct xs → IsDistinct (filter_by p xs)
filter_by-IsDistinct p [] h = tt
filter_by-IsDistinct p (x ∷ xs) h =
    ground (arith, member-filter_by p x xs, filter_by-IsDistinct p xs h.1)

pub append-IsDistinct :
    (k : String) (xs : List String)
    → IsDistinct xs
    → member k xs ≡ false
    → IsDistinct (xs ++ k ∷ [])
append-IsDistinct k [] h m = (refl, tt)
append-IsDistinct k (x ∷ xs) h m =
    ground (arith, eq_iff x k, eq_iff k x, member-append x xs (k ∷ []), append-IsDistinct k xs h.1)

-- `string(a) == string(b)` on byte strings.
abbrev pub bytes_eq : List ℕ → List ℕ → Bool
bytes_eq [] [] = true
bytes_eq [] (b ∷ bs) = false
bytes_eq (a ∷ as') [] = false
bytes_eq (a ∷ as') (b ∷ bs) = if nat_eq a b then bytes_eq as' bs else false

pub bytes_eq_sound : (as' bs : List ℕ) → bytes_eq as' bs ≡ true → as' ≡ bs
bytes_eq_sound [] [] h = refl
bytes_eq_sound [] (b ∷ bs) h = cc
bytes_eq_sound (a ∷ as') [] h = cc
bytes_eq_sound (a ∷ as') (b ∷ bs) h = ground (arith, bytes_eq_sound as' bs)

pub bytes_eq_refl : (bs : List ℕ) → bytes_eq bs bs ≡ true
bytes_eq_refl [] = refl
bytes_eq_refl (b ∷ bs) = ground (arith, bytes_eq_refl bs)
