-- ===== src/Spark/Joins.antt =====
-- Left joins, and lists up to order: what they do to maps of the rows on the left.
use mathlib.Core.List.{Permᴰ}
use mathlib.Core.List.Permᴰ
use mathlib.Core.Path.{subst}
use feature_store.Common.{
  ◌≡◌, refl, sym, ap, ◌∙◌, String, Option, some, List, [], ◌∷◌, ◌++◌, map, filter, str_eq,
}
use feature_store.Spark.Rows.{SameRows, flip_rows, same_rows, with_matches, join_rows}

module _ {A : Type 0} where
  append_swap : (xs ys zs : List A) → SameRows (xs ++ (ys ++ zs)) (ys ++ (xs ++ zs))
  append_swap [] ys zs = same_rows (ys ++ zs)
  append_swap (x ∷ xs) ys zs =
      Permᴰ.trans (Permᴰ.cons refl (append_swap xs ys zs))
        (flip_rows (Permᴰ.middle x ys (xs ++ zs)))

module _ {A B C : Type 0} where
  pub map-map : (h : B → C) (g : A → B) (xs : List A) → map h (map g xs) ≡ map (λ x. h (g x)) xs
  map-map h g [] = refl
  map-map h g (x ∷ xs) = ap (λ ys. h (g x) ∷ ys) (map-map h g xs)

module _ {A B : Type 0} where
  map-append : (h : A → B) (xs ys : List A) → map h (xs ++ ys) ≡ map h xs ++ map h ys
  map-append h [] ys = refl
  map-append h (x ∷ xs) ys = ap (λ zs. h x ∷ zs) (map-append h xs ys)

module _ {A B : Type 0} (ka : A → String) (kb : B → String) where
  abbrev matches : A → List B → List (A × Option B)
  matches a bs = with_matches a (filter (λ b. str_eq (kb b) (ka a)) bs)

  -- Joins of the same rows on the left.
  pub SameRows-join_rows :
      {xs ys : List A} (bs : List B)
      → SameRows xs ys
      → SameRows (join_rows ka kb xs bs) (join_rows ka kb ys bs)
  unfolding join_rows
  SameRows-join_rows bs Permᴰ.nil = same_rows []
  SameRows-join_rows bs (Permᴰ.cons {a} {b} {l₁} {l₂} e d) =
      subst (λ x. SameRows (join_rows ka kb (a ∷ l₁) bs) (join_rows ka kb (x ∷ l₂) bs)) e
        (Permᴰ.append_left (matches a bs) (SameRows-join_rows bs d))
  SameRows-join_rows bs (Permᴰ.swap {a} {b} {a'} {b'} {l} e d) =
      subst (λ x. SameRows (join_rows ka kb (a ∷ b ∷ l) bs) (join_rows ka kb (a' ∷ x ∷ l) bs)) e
        (subst (λ x. SameRows (join_rows ka kb (a ∷ b ∷ l) bs) (join_rows ka kb (x ∷ a ∷ l) bs)) d
          (append_swap (matches a bs) (matches b bs) (join_rows ka kb l bs)))
  SameRows-join_rows bs (Permᴰ.trans d e) =
      Permᴰ.trans (SameRows-join_rows bs d) (SameRows-join_rows bs e)

module _ {A B C : Type 0} (g : C → A) (ka : A → String) (kb : B → String) where
  abbrev pub on_first : C × Option B → A × Option B
  on_first (c, o) = (g c, o)

  matches-map : (c : C) (bs : List B) → with_matches (g c) bs ≡ map on_first (with_matches c bs)
  matches-map c [] = refl
  matches-map c (b ∷ bs) =
      ap (λ ys. (g c, some b) ∷ ys) (sym (map-map on_first (λ y. (c, some y)) bs))

  pub join_rows-map :
      (cs : List C) (bs : List B)
      → join_rows ka kb (map g cs) bs ≡ map on_first (join_rows (λ c. ka (g c)) kb cs bs)
  unfolding join_rows
  join_rows-map [] bs = refl
  join_rows-map (c ∷ cs) bs =
      let ms = filter (λ b. str_eq (kb b) (ka (g c))) bs in
      let rest = join_rows (λ x. ka (g x)) kb cs bs in
      ap (λ ys. ys ++ join_rows ka kb (map g cs) bs) (matches-map c ms)
      ∙ ap (λ ys. map on_first (with_matches c ms) ++ ys) (join_rows-map cs bs)
      ∙ sym (map-append on_first (with_matches c ms) rest)
