-- ===== src/Common/Sorting.antt =====
-- What `sort.SliceStable` gives: the same elements, and none before another that is less.
use cribbager.Common.{
  ℕ, suc, ◌+◌, ◌≡◌, ap, refl, Bool, true, false, ◌||◌, List, [], ◌∷◌, Option, none, some, All, map,
  length, if◌then◌else◌, arith, Bool-cases, inl, inr, ◌∙◌, ◌++◌, subst,
}
use cribbager.Common.Sort.{insert, sort}

module _ {ℓ} {A : Type ℓ} where
  abbrev pub any : (A → Bool) → List A → Bool
  any p [] = false
  any p (x ∷ xs) = p x || any p xs

  -- The first element that passes the test.
  abbrev pub find : (A → Bool) → List A → Option A
  find p [] = none
  find p (x ∷ xs) = if p x then some x else find p xs

  pub any-append : (p : A → Bool) (xs ys : List A) → any p (xs ++ ys) ≡ (any p xs || any p ys)
  any-append p [] ys = refl
  any-append p (x ∷ xs) ys = ground (arith, any-append p xs ys)

  pub any-weaken :
      (p q : A → Bool) (xs : List A)
      → ((x : A) → p x ≡ true → q x ≡ true)
      → any p xs ≡ true
      → any q xs ≡ true
  any-weaken p q [] h e = e
  any-weaken p q (x ∷ xs) h e = elim (Bool-cases (p x)) [
    | inl passes ↦ rw (h x passes) refl
    | inr fails ↦ or_right (q x) (any-weaken p q xs h (rw fails at e))
  ]
    where
      or_right : (b : Bool) {c : Bool} → c ≡ true → (b || c) ≡ true
      or_right true k = refl
      or_right false k = k

  pub find-any :
      (p : A → Bool) (xs : List A) → any p xs ≡ true → (x : A) × (find p xs ≡ some x) × (p x ≡ true)
  find-any p [] h = cc
  find-any p (x ∷ xs) h = elim (Bool-cases (p x)) [
    | inl yes_ ↦ (x, rw yes_ refl, yes_)
    | inr no_ ↦ let (y, found, passes) = find-any p xs (rw no_ at h) in (y, rw no_ found, passes)
  ]

  pub find-All :
      (p : A → Bool) (P : A → Type 0) (xs : List A) (x : A) → find p xs ≡ some x → All P xs → P x
  find-All p P [] x h a = cc
  find-All p P (y ∷ ys) x h (b, a) = elim (Bool-cases (p y)) [
    | inl yes_ ↦ same (rw yes_ at h)
    | inr no_ ↦ find-All p P ys x (rw no_ at h) a
  ]
    where
      same : some y ≡ some x → P x
      same e = subst P (cc) b

  any-insert :
      (less : A → A → Bool) (p : A → Bool) (a : A) (xs : List A)
      → any p (insert less a xs) ≡ (p a || any p xs)
  unfolding insert
  any-insert less p a [] = refl
  any-insert less p a (x ∷ xs) = ground (arith, any-insert less p a xs)

  pub any-sort :
      (less : A → A → Bool) (p : A → Bool) (xs : List A) → any p (sort less xs) ≡ any p xs
  unfolding sort
  any-sort less p [] = refl
  any-sort less p (x ∷ xs) =
      any-insert less p x (sort less xs) ∙ ap (λ b. p x || b) (any-sort less p xs)

  -- How many elements pass the test.
  abbrev pub count : (A → Bool) → List A → ℕ
  count p [] = 0
  count p (x ∷ xs) = (if p x then 1 else 0) + count p xs

  count-insert :
      (less : A → A → Bool) (p : A → Bool) (a : A) (xs : List A)
      → count p (insert less a xs) ≡ (if p a then 1 else 0) + count p xs
  unfolding insert
  count-insert less p a [] = refl
  count-insert less p a (x ∷ xs) = ground (arith, count-insert less p a xs)

  pub count-sort :
      (less : A → A → Bool) (p : A → Bool) (xs : List A) → count p (sort less xs) ≡ count p xs
  unfolding sort
  count-sort less p [] = refl
  count-sort less p (x ∷ xs) =
      omega (arith, count-insert less p x (sort less xs), count-sort less p xs)

  length-insert :
      (less : A → A → Bool) (a : A) (xs : List A) → length (insert less a xs) ≡ suc (length xs)
  unfolding insert
  length-insert less a [] = refl
  length-insert less a (x ∷ xs) = ground (arith, length-insert less a xs)

  pub length-sort : (less : A → A → Bool) (xs : List A) → length (sort less xs) ≡ length xs
  unfolding sort
  length-sort less [] = refl
  length-sort less (x ∷ xs) = length-insert less x (sort less xs) ∙ ap suc (length-sort less xs)

  All-insert :
      (less : A → A → Bool) (P : A → Type 0) (a : A) (xs : List A)
      → P a
      → All P xs
      → All P (insert less a xs)
  unfolding insert
  All-insert less P a [] h k = (h, tt)
  All-insert less P a (x ∷ xs) h (kx, k) = elim (Bool-cases (less x a)) [
    | inl e ↦ rw e (kx, All-insert less P a xs h k)
    | inr e ↦ rw e (h, (kx, k))
  ]

  pub All-sort :
      (less : A → A → Bool) (P : A → Type 0) (xs : List A) → All P xs → All P (sort less xs)
  unfolding sort
  All-sort less P [] h = tt
  All-sort less P (x ∷ xs) (hx, h) = All-insert less P x (sort less xs) hx (All-sort less P xs h)

  -- Nothing in the list is less than the value.
  abbrev pub Tops : (A → A → Bool) → A → List A → Type 0
  Tops less x xs = All (λ y. less y x ≡ false) xs

  abbrev pub IsSorted : (A → A → Bool) → List A → Type 0
  IsSorted less [] = Unit
  IsSorted less (x ∷ xs) = Tops less x xs × IsSorted less xs

  module _ (less : A → A → Bool) (asymmetric : (a b : A) → less a b ≡ true → less b a ≡ false)
      (transitive : (a b c : A) → less b a ≡ false → less c b ≡ false → less c a ≡ false) where
    Tops-more : (a x : A) (ys : List A) → less x a ≡ false → Tops less x ys → Tops less a ys
    Tops-more a x [] h t = tt
    Tops-more a x (y ∷ ys) h (ty, t) = (transitive a x y h ty, Tops-more a x ys h t)

    insert-IsSorted : (a : A) (xs : List A) → IsSorted less xs → IsSorted less (insert less a xs)
    unfolding insert
    insert-IsSorted a [] h = (tt, tt)
    insert-IsSorted a (x ∷ xs) (t, h) = elim (Bool-cases (less x a)) [
      | inl e ↦ rw e (
        All-insert less (λ y. less y x ≡ false) a xs (asymmetric x a e) t,
        insert-IsSorted a xs h,
      )
      | inr e ↦ rw e ((e, Tops-more a x xs e t), (t, h))
    ]

    pub sort-IsSorted : (xs : List A) → IsSorted less (sort less xs)
    unfolding sort
    sort-IsSorted [] = tt
    sort-IsSorted (x ∷ xs) = insert-IsSorted x (sort less xs) (sort-IsSorted xs)

pub any-map {ℓ κ} :
    {A : Type ℓ} {B : Type κ} (p : B → Bool) (f : A → B) (xs : List A)
    → any p (map f xs) ≡ any (λ x. p (f x)) xs
any-map p f [] = refl
any-map p f (x ∷ xs) = ap (λ b. p (f x) || b) (any-map p f xs)

pub All-map {ℓ κ} :
    {A : Type ℓ} {B : Type κ} (P : B → Type 0) (f : A → B) (xs : List A)
    → All (λ x. P (f x)) xs
    → All P (map f xs)
All-map P f [] h = tt
All-map P f (x ∷ xs) (hx, h) = (hx, All-map P f xs h)
