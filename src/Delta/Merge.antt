-- ===== src/Delta/Merge.antt =====
-- What a merge makes of a table and a source, as Delta documents it.
use feature_store.Common.{
  ◌+◌, ◌≤◌, ◌<◌, ◌≡◌, refl, arith, Bool, true, false, ◌&&◌, ◌||◌, not, List, [], ◌∷◌, ◌++◌, filter,
  count, any, ltb, if◌then◌else◌, Bool-cases, inl, inr,
}
use feature_store.Spark.Rows.{count-append, count-filter, any-eq-count}

module _ {R : Type 0} where
  -- the row of the source that a row of the table is updated to
  abbrev pub updated : (R → R → Bool) → R → List R → R
  updated c t [] = t
  updated c t (x ∷ xs) = if c t x then x else updated c t xs

  abbrev pub updates : (R → R → Bool) → List R → List R → List R
  updates c [] xs = []
  updates c (t ∷ ts) xs = updated c t xs ∷ updates c ts xs

  -- whether several rows of the source match one row of the table
  abbrev pub ambiguous : (R → R → Bool) → List R → List R → Bool
  ambiguous c [] xs = false
  ambiguous c (t ∷ ts) xs = ltb 1 (count (c t) xs) || ambiguous c ts xs

  -- the matched rows updated, the others kept, and the rows that match none inserted
  abbrev pub merged : (R → R → Bool) → List R → List R → List R
  merged c ts xs = updates c ts xs ++ filter (λ x. not (any (λ t. c t x) ts)) xs

  module _ (c : R → R → Bool) (cong : (t x y : R) → c t x ≡ true → c y t ≡ c y x) where
    updated-same : (y t : R) (xs : List R) → c y (updated c t xs) ≡ c y t
    updated-same y t [] = refl
    updated-same y t (x ∷ xs) = ground (arith, cong t x y, updated-same y t xs)

    count-updates : (y : R) (ts xs : List R) → count (c y) (updates c ts xs) ≡ count (c y) ts
    count-updates y [] xs = refl
    count-updates y (t ∷ ts) xs = ground (arith, updated-same y t xs, count-updates y ts xs)

  module _ (c : R → R → Bool) (cong : (t x y : R) → c t x ≡ true → c y t ≡ c y x)
      (meet : (y t x : R) → c y t ≡ true → c y x ≡ true → c t x ≡ true) where
    any-meet :
        (y x : R) (ts : List R) → any (c y) ts ≡ true → c y x ≡ true → any (λ t. c t x) ts ≡ true
    any-meet y x [] h k = cc
    any-meet y x (t ∷ ts) h k = ground (arith, meet y t x, any-meet y x ts)

    -- Nothing is inserted for a key that the table has.
    no_insert :
        (y : R) (ts xs : List R)
        → any (c y) ts ≡ true
        → count (λ x. not (any (λ t. c t x) ts) && c y x) xs ≡ 0
    no_insert y ts [] h = refl
    no_insert y ts (x ∷ xs) h = ground (arith, any-meet y x ts h, no_insert y ts xs h)

    -- how many rows of a key are inserted, at most
    inserts-le :
        (y : R) (ts xs : List R)
        → count (λ x. not (any (λ t. c t x) ts) && c y x) xs ≤ count (c y) xs
    inserts-le y ts [] = omega arith
    inserts-le y ts (x ∷ xs) = ground (arith, inserts-le y ts xs)

    -- A key that stands once at most in the table, and in the source, does so in the merge.
    pub merged_once :
        (y : R) (ts xs : List R)
        → count (c y) ts ≤ 1
        → count (c y) xs ≤ 1
        → count (c y) (merged c ts xs) ≤ 1
    merged_once y ts xs h k =
        let split =
          count-append (c y) (updates c ts xs) (filter (λ x. not (any (λ t. c t x) ts)) xs) in
        let inserted = count-filter (c y) (λ x. not (any (λ t. c t x) ts)) xs in
        elim (Bool-cases (any (c y) ts)) [
          | inl e ↦
              ground (arith, split, inserted, count-updates c cong y ts xs, no_insert y ts xs e)
          | inr e ↦ ground (
            arith,
            split,
            inserted,
            count-updates c cong y ts xs,
            inserts-le y ts xs,
            any-eq-count (c y) ts,
          )
        ]

  -- What a merge keeps: a test that reads only the key, of which the rows are matched by.
  module _ (c : R → R → Bool) (cong : (t x y : R) → c t x ≡ true → c y t ≡ c y x)
      (back : (y t x : R) → c y x ≡ true → c t x ≡ true → c y t ≡ true) where
    any-back :
        (y x : R) (ts : List R) → any (λ t. c t x) ts ≡ true → c y x ≡ true → any (c y) ts ≡ true
    any-back y x [] h k = cc
    any-back y x (t ∷ ts) h k = ground (arith, back y t x, any-back y x ts)

    -- The rows of a key that the table does not have are all inserted.
    inserts_all :
        (y : R) (ts xs : List R)
        → any (c y) ts ≡ false
        → count (λ x. not (any (λ t. c t x) ts) && c y x) xs ≡ count (c y) xs
    inserts_all y ts [] h = refl
    inserts_all y ts (x ∷ xs) h = ground (arith, any-back y x ts, inserts_all y ts xs h)

    -- A key that the table or the source has is in the merge.
    pub merged_has :
        (y : R) (ts xs : List R)
        → 0 < count (c y) ts + count (c y) xs
        → 0 < count (c y) (merged c ts xs)
    merged_has y ts xs h =
        let split =
          count-append (c y) (updates c ts xs) (filter (λ x. not (any (λ t. c t x) ts)) xs) in
        let inserted = count-filter (c y) (λ x. not (any (λ t. c t x) ts)) xs in
        let kept = count-updates c cong y ts xs in
        let found = any-eq-count (c y) ts in
        elim (Bool-cases (any (c y) ts)) [
          | inl e ↦ ground (arith, split, kept, found)
          | inr e ↦ ground (arith, split, inserted, kept, inserts_all y ts xs e)
        ]
