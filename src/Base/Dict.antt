-- ===== src/Base/Dict.antt =====
-- A Go map with text keys, as an association list.
use Prim.Native.String.{String}
use mathlib.Core.Path.{◌≡◌, refl, sym, ap, ◌∙◌}
use mathlib.Core.Bool.{Bool, true, false}
use mathlib.Core.Option.{Option, none, some}
use mathlib.Core.List.{List, [], ◌∷◌, ◌++◌, append-nil, append_assoc}
use native.Mathlib.Omega.{arith}
use text.Mathlib.TextEquality.{eq_iff}
use pixie_block.Base.Tests.{⊤, ◌==◌, if◌then◌else◌}
use pixie_block.Base.Int.{ℤ, pos, pos_part, neg_part, ◌+ℤ◌, ◌≤ℤ◌, int_laws}

abbrev pub Dict : Type 0 → Type 0
Dict V = List (String × V)

module _ {V : Type 0} where
  -- `m[key] = value`
  abbrev pub insert : String → V → Dict V → Dict V
  insert key value [] = (key, value) ∷ []
  insert key value ((j, w) ∷ m) = if j == key then (key, value) ∷ m else (j, w) ∷ insert key value m

  -- `delete(m, key)`
  abbrev pub erase : String → Dict V → Dict V
  erase key [] = []
  erase key ((j, w) ∷ m) = if j == key then erase key m else (j, w) ∷ erase key m

  abbrev pub lookup : String → Dict V → Option V
  lookup key [] = none
  lookup key ((j, value) ∷ m) = if j == key then some value else lookup key m

  -- `_, ok := m[key]`
  abbrev pub contains : String → Dict V → Bool
  contains key m = elim (lookup key m) [ some _ ↦ true | none ↦ false ]

  -- A key is listed once, as in a map.
  abbrev pub IsMap : Dict V → Type 0
  IsMap [] = ⊤
  IsMap ((k, v) ∷ d) = (lookup k d ≡ none) × IsMap d

  -- `for k, v := range d { acc[k] = v }`
  abbrev pub copy_into : Dict V → Dict V → Dict V
  copy_into acc [] = acc
  copy_into acc ((k, v) ∷ d) = copy_into (insert k v acc) d

  pub lookup-insert :
      (j k : String) (v : V) (d : Dict V)
      → lookup j (insert k v d) ≡ (if k == j then some v else lookup j d)
  lookup-insert j k v [] = refl
  lookup-insert j k v ((i, w) ∷ d) =
      ground (arith, eq_iff k j, eq_iff i k, eq_iff i j, lookup-insert j k v d)

  pub lookup-erase :
      (j k : String) (d : Dict V) → lookup j (erase k d) ≡ (if k == j then none else lookup j d)
  lookup-erase j k [] = ground arith
  lookup-erase j k ((i, w) ∷ d) =
      ground (arith, eq_iff k j, eq_iff i k, eq_iff i j, lookup-erase j k d)

  pub insert-IsMap : (k : String) (v : V) (d : Dict V) → IsMap d → IsMap (insert k v d)
  insert-IsMap k v [] h = (refl, tt)
  insert-IsMap k v ((i, w) ∷ d) h =
      ground (arith, eq_iff i k, eq_iff k i, insert-IsMap k v d h.1, lookup-insert i k v d)

  pub erase-IsMap : (k : String) (d : Dict V) → IsMap d → IsMap (erase k d)
  erase-IsMap k [] h = tt
  erase-IsMap k ((i, w) ∷ d) h = ground (arith, erase-IsMap k d h.1, lookup-erase i k d)

  pub erase_absent : (k : String) (d : Dict V) → lookup k d ≡ none → erase k d ≡ d
  erase_absent k [] h = refl
  erase_absent k ((i, w) ∷ d) h = ground (arith, erase_absent k d)

  insert_new :
      (k : String) (v : V) (d : Dict V) → lookup k d ≡ none → insert k v d ≡ d ++ (k, v) ∷ []
  insert_new k v [] h = refl
  insert_new k v ((i, w) ∷ d) h = ground (arith, insert_new k v d)

  -- No key of the second map stands in the first.
  abbrev IsApart : Dict V → Dict V → Type 0
  IsApart acc [] = ⊤
  IsApart acc ((k, v) ∷ d) = (lookup k acc ≡ none) × IsApart acc d

  IsApart-insert :
      (k : String) (v : V) (acc d : Dict V)
      → lookup k d ≡ none
      → IsApart acc d
      → IsApart (insert k v acc) d
  IsApart-insert k v acc [] n a = tt
  IsApart-insert k v acc ((i, w) ∷ d) n a =
      ground (arith, lookup-insert i k v acc, eq_iff k i, eq_iff i k, IsApart-insert k v acc d)

  copy_into-append : (acc d : Dict V) → IsMap d → IsApart acc d → copy_into acc d ≡ acc ++ d
  copy_into-append acc [] m a = sym (append-nil acc)
  copy_into-append acc ((k, v) ∷ d) m a =
      copy_into-append (insert k v acc) d m.1 (IsApart-insert k v acc d m.0 a.1)
      ∙ ap (λ x. x ++ d) (insert_new k v acc a.0)
      ∙ append_assoc acc ((k, v) ∷ []) d

  IsApart-nil : (d : Dict V) → IsApart [] d
  IsApart-nil [] = tt
  IsApart-nil ((k, v) ∷ d) = (refl, IsApart-nil d)

  -- A copy of a map into an empty one is that map.
  pub copy_into_empty : (d : Dict V) → IsMap d → copy_into [] d ≡ d
  copy_into_empty d m = copy_into-append [] d m (IsApart-nil d)

  -- The sum of a measure of the values.
  module _ (f : V → ℤ) where
    abbrev pub sum_by : Dict V → ℤ
    sum_by [] = pos 0
    sum_by ((k, v) ∷ d) = f v +ℤ sum_by d

    -- What the key holds, 0 if it is absent.
    abbrev pub measure_at : String → Dict V → ℤ
    measure_at k d = elim (lookup k d) [ none ↦ pos 0 | some v ↦ f v ]

    pub sum_by-insert :
        (k : String) (v : V) (d : Dict V)
        → sum_by (insert k v d) +ℤ measure_at k d ≡ sum_by d +ℤ f v
    sum_by-insert k v [] = omega int_laws
    sum_by-insert k v ((i, w) ∷ d) = grind (int_laws, sum_by-insert k v d)

    pub sum_by-erase :
        (k : String) (d : Dict V) → IsMap d → sum_by (erase k d) +ℤ measure_at k d ≡ sum_by d
    sum_by-erase k [] h = omega int_laws
    sum_by-erase k ((i, w) ∷ d) h =
        grind (int_laws, sum_by-erase k d h.1, eq_iff i k, erase_absent k d)

    -- Every value has a measure of zero or more.
    abbrev pub AllNonneg : Dict V → Type 0
    AllNonneg [] = ⊤
    AllNonneg ((k, v) ∷ d) = (pos 0 ≤ℤ f v) × AllNonneg d

    pub insert-AllNonneg :
        (k : String) (v : V) (d : Dict V) → AllNonneg d → pos 0 ≤ℤ f v → AllNonneg (insert k v d)
    insert-AllNonneg k v [] h p = (p, tt)
    insert-AllNonneg k v ((i, w) ∷ d) h p = ground (arith, insert-AllNonneg k v d h.1 p)

    pub erase-AllNonneg : (k : String) (d : Dict V) → AllNonneg d → AllNonneg (erase k d)
    erase-AllNonneg k [] h = tt
    erase-AllNonneg k ((i, w) ∷ d) h = ground (arith, erase-AllNonneg k d h.1)

    pub measure_at_nonneg : (k : String) (d : Dict V) → AllNonneg d → pos 0 ≤ℤ measure_at k d
    measure_at_nonneg k [] h = omega arith
    measure_at_nonneg k ((i, w) ∷ d) h = ground (arith, measure_at_nonneg k d h.1)

    pub sum_by_nonneg : (d : Dict V) → AllNonneg d → pos 0 ≤ℤ sum_by d
    sum_by_nonneg [] h = omega arith
    sum_by_nonneg ((i, w) ∷ d) h = omega (int_laws, sum_by_nonneg d h.1)

    -- No value exceeds the sum.
    pub measure_at-le-sum_by : (k : String) (d : Dict V) → AllNonneg d → measure_at k d ≤ℤ sum_by d
    measure_at-le-sum_by k [] h = omega arith
    measure_at-le-sum_by k ((i, w) ∷ d) h =
        grind (int_laws, measure_at-le-sum_by k d h.1, sum_by_nonneg d h.1)

    pub measure_at-erase :
        (j k : String) (d : Dict V) → (k == j) ≡ false → measure_at j (erase k d) ≡ measure_at j d
    measure_at-erase j k d h = ground (arith, lookup-erase j k d)

    pub measure_at-insert_ne :
        (j k : String) (v : V) (d : Dict V)
        → (k == j) ≡ false
        → measure_at j (insert k v d) ≡ measure_at j d
    measure_at-insert_ne j k v d h = ground (arith, lookup-insert j k v d)

    -- Two values do not exceed the sum either.
    pub measure_at_two-le :
        (j k : String) (d : Dict V)
        → IsMap d
        → AllNonneg d
        → (k == j) ≡ false
        → measure_at j d +ℤ measure_at k d ≤ℤ sum_by d
    measure_at_two-le j k d m n h =
        let other : measure_at j d ≤ℤ sum_by (erase k d) =
          rw (measure_at-erase j k d h) at
            (measure_at-le-sum_by j (erase k d) (erase-AllNonneg k d n)) in
        omega (int_laws, other, ap pos_part (sum_by-erase k d m), ap neg_part (sum_by-erase k d m))
