-- ===== src/Spark/Memory/Groups.antt =====
-- Groups by user and window, for the data frames held in memory.
use feature_store.Common.{
  ◌≡◌, refl, sym, ◌∙◌, arith, String, Bool, true, false, ◌&&◌, ◌||◌, not, List, [], ◌∷◌, ◌++◌, map,
  filter, count, any, is_empty, All, str_eq, eq_iff, if◌then◌else◌, Bool-cases, inl, inr,
}
use feature_store.Spark.Rows.{
  Window, Windowed, same_window, SameRows, same_rows, All-filter, All-map, in_group, count-filter,
  count_ext, count-map,
}

-- A user and a window: what a group is named by.
abbrev pub Key : Type 0
Key = String × Window

abbrev pub same_key : Key → Key → Bool
same_key (u, w) (v, x) = str_eq u v && same_window w x

abbrev pub with_user : String → List Window → List Key
with_user u [] = []
with_user u (w ∷ ws) = (u, w) ∷ with_user u ws

abbrev pub distinct : List Key → List Key
distinct [] = []
distinct (k ∷ ks) = k ∷ filter (λ j. not (same_key k j)) (distinct ks)

same_key_sym : (k j : Key) → same_key k j ≡ same_key j k
same_key_sym (u, w) (v, x) = ground (arith, eq_iff u v, eq_iff v u)

same_key_trans : (i j k : Key) → same_key j i ≡ true → same_key i k ≡ true → same_key j k ≡ true
same_key_trans (u, w) (v, x) (t, y) h g =
    ground (arith, eq_iff u v, eq_iff v u, eq_iff v t, eq_iff u t)

-- What is left of the keys that match `k`, when those that match `j` are taken away.
others :
    (k j i : Key)
    → (not (same_key j i) && same_key i k) ≡ (if same_key k j then false else same_key i k)
others k j i = ground (
  arith,
  same_key_trans i j k,
  same_key_trans k i j,
  same_key_sym i j,
  same_key_sym k j,
  same_key_sym i k,
)

count-false : {A : Type 0} (xs : List A) → count (λ x. false) xs ≡ 0
count-false [] = refl
count-false (x ∷ xs) = omega (arith, count-false xs)

count-distinct :
    (k : Key) (ks : List Key)
    → count (λ j. same_key j k) (distinct ks) ≡ (if any (same_key k) ks then 1 else 0)
count-distinct k [] = refl
count-distinct k (j ∷ ks) =
    let rest = distinct ks in
    let left = count-filter (λ i. same_key i k) (λ i. not (same_key j i)) rest in
    elim (Bool-cases (same_key k j)) [
      | inl e ↦ ground (
        arith,
        left,
        same_key_sym k j,
        count-false rest,
        count_ext (λ i. not (same_key j i) && same_key i k) (λ i. false) rest
            (λ i. ground (arith, others k j i)),
      )
      | inr e ↦ ground (
        arith,
        left,
        same_key_sym k j,
        count-distinct k ks,
        count_ext (λ i. not (same_key j i) && same_key i k) (λ i. same_key i k) rest
            (λ i. ground (arith, others k j i)),
      )
    ]

any-append :
    {A : Type 0} (p : A → Bool) (xs ys : List A) → any p (xs ++ ys) ≡ (any p xs || any p ys)
any-append p [] ys = refl
any-append p (x ∷ xs) ys = ground (arith, any-append p xs ys)

any-with_user :
    (u : String) (w : Window) (v : String) (ws : List Window)
    → any (same_key (u, w)) (with_user v ws) ≡ (str_eq v u && any (same_window w) ws)
any-with_user u w v [] = ground arith
any-with_user u w v (x ∷ ws) = ground (arith, any-with_user u w v ws, eq_iff u v, eq_iff v u)

module _ {A : Type 0} (user : A → String) (ws : A → List Window) where
  abbrev pub keys : List A → List Key
  keys [] = []
  keys (x ∷ xs) = with_user (user x) (ws x) ++ keys xs

  any-keys :
      (u : String) (w : Window) (xs : List A)
      → any (same_key (u, w)) (keys xs) ≡ any (in_group user ws u w) xs
  any-keys u w [] = refl
  any-keys u w (x ∷ xs) = ground (
    arith,
    any-keys u w xs,
    any-append (same_key (u, w)) (with_user (user x) (ws x)) (keys xs),
    any-with_user u w (user x) (ws x),
  )

module _ (P : Key → Type 0) where
  All-distinct : (ks : List Key) → All P ks → All P (distinct ks)
  All-distinct [] h = tt
  All-distinct (k ∷ ks) (h, hs) = (h, All-filter P _ (distinct ks) (All-distinct ks hs))

  All-of_any : (ks : List Key) → ((k : Key) → any (same_key k) ks ≡ true → P k) → All P ks
  All-of_any [] h = tt
  All-of_any ((u, w) ∷ ks) h =
      (h (u, w) (ground (arith, eq_iff u u)), All-of_any ks λ k e. h k (ground arith))

is_empty-filter :
    {A : Type 0} (p : A → Bool) (xs : List A) → any p xs ≡ true → is_empty (filter p xs) ≡ false
is_empty-filter p [] h = absurd (ground arith)
is_empty-filter p (x ∷ xs) h = ground (arith, is_empty-filter p xs)

module _ {A B : Type 0} (user : A → String) (ws : A → List Window) (agg : List A → B) where
  abbrev pub group_row : List A → Key → Windowed B
  group_row d (u, w) = record {
    user_id = u;
    window = w;
    value = agg (filter (in_group user ws u w) d);
  }

  abbrev pub grouped : List A → List (Windowed B)
  grouped d = map (group_row d) (distinct (keys user ws d))

  pub count-grouped :
      (d : List A) (u : String) (w : Window)
      → count (λ r. str_eq r.user_id u && same_window w r.window) (grouped d)
        ≡ (if any (in_group user ws u w) d then 1 else 0)
  count-grouped d u w = ground (
    arith,
    count-map (λ r. str_eq r.user_id u && same_window w r.window) (group_row d)
        (distinct (keys user ws d)),
    count_ext (λ k. str_eq (group_row d k).user_id u && same_window w (group_row d k).window)
        (λ k. same_key k (u, w)) (distinct (keys user ws d)) (λ k. ground (arith)),
    count-distinct (u, w) (keys user ws d),
    any-keys user ws u w d,
  )

  pub All-grouped :
      (d : List A)
      → All {A = Windowed B}
          (λ r.
            (xs : List A) × SameRows xs (filter (in_group user ws r.user_id r.window) d)
            × (is_empty xs ≡ false)
            × (r.value ≡ agg xs))
          (grouped d)
  All-grouped d =
      All-map (λ k. any (same_key k) (keys user ws d) ≡ true) _ (distinct (keys user ws d))
        (λ (u, w) e. (
          filter (in_group user ws u w) d,
          same_rows _,
          is_empty-filter (in_group user ws u w) d (sym (any-keys user ws u w d) ∙ e),
          refl,
        ))
        (All-distinct _ (keys user ws d) (All-of_any _ (keys user ws d) λ k e. e))
