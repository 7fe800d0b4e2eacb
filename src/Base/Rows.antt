-- ===== src/Base/Rows.antt =====
-- The rows of a database table, in the order of their insertion, with the statements that the
-- program issues: SELECT ... WHERE, UPDATE ... SET ... WHERE and its row count.
use Prim.Native.Nat.{ℕ, zero, suc, ◌+◌, ◌≤◌}
use mathlib.Core.Path.{◌≡◌, refl}
use mathlib.Core.Bool.{Bool, true, false, ◌&&◌, ◌||◌}
use mathlib.Core.List.{List, [], ◌∷◌, ◌++◌}
use mathlib.Core.Option.{Option, none, some}
use native.Mathlib.Omega.{arith}
use airgap_sync.Base.{if◌then◌else◌}

module _ {A : Type 0} where
  -- UPDATE t SET ... WHERE p
  abbrev pub update_where : (A → Bool) → (A → A) → List A → List A
  update_where p f [] = []
  update_where p f (x ∷ xs) = (if p x then f x else x) ∷ update_where p f xs

  -- SELECT COUNT(*) FROM t WHERE p; the `rowcount` of an UPDATE with that condition
  abbrev pub count_where : (A → Bool) → List A → ℕ
  count_where p [] = 0
  count_where p (x ∷ xs) = if p x then suc (count_where p xs) else count_where p xs

  -- SELECT * FROM t WHERE p
  abbrev pub select_where : (A → Bool) → List A → List A
  select_where p [] = []
  select_where p (x ∷ xs) = if p x then x ∷ select_where p xs else select_where p xs

  -- SELECT * FROM t WHERE p LIMIT 1
  abbrev pub find? : (A → Bool) → List A → Option A
  find? p [] = none
  find? p (x ∷ xs) = if p x then some x else find? p xs

  -- is there a row with p?
  abbrev pub exists_row : (A → Bool) → List A → Bool
  exists_row p [] = false
  exists_row p (x ∷ xs) = p x || exists_row p xs

  -- ORDER BY, where `first x y` is whether x may stand before y
  abbrev pub insert_by : (A → A → Bool) → A → List A → List A
  insert_by first x [] = x ∷ []
  insert_by first x (y ∷ ys) = if first x y then x ∷ y ∷ ys else y ∷ insert_by first x ys

  abbrev pub order_by : (A → A → Bool) → List A → List A
  order_by first [] = []
  order_by first (x ∷ xs) = insert_by first x (order_by first xs)

  -- LIMIT n
  abbrev pub limit : ℕ → List A → List A
  limit zero xs = []
  limit (suc n) [] = []
  limit (suc n) (x ∷ xs) = x ∷ limit n xs

  -- ORDER BY ... LIMIT 1
  abbrev pub first_of : (A → A → Bool) → List A → Option A
  first_of first [] = none
  first_of first (x ∷ xs) = elim (first_of first xs) [
    | none ↦ some x
    | some y ↦ if first x y then some x else some y
  ]

  pub count_where-append :
      (p : A → Bool) (xs ys : List A)
      → count_where p (xs ++ ys) ≡ count_where p xs + count_where p ys
  count_where-append p [] ys = omega arith
  count_where-append p (x ∷ xs) ys = ground (arith, count_where-append p xs ys)

  -- An update that makes no row satisfy q which did not before does not raise the count.
  pub count_where-update_le :
      (q p : A → Bool) (f : A → A) (xs : List A)
      → ((x : A) → p x ≡ true → q (f x) ≡ true → q x ≡ true)
      → count_where q (update_where p f xs) ≤ count_where q xs
  count_where-update_le q p f [] h = omega arith
  count_where-update_le q p f (x ∷ xs) h = ground (arith, h x, count_where-update_le q p f xs h)

  -- An update that leaves q as it was on every row leaves the count.
  pub count_where-update_eq :
      (q p : A → Bool) (f : A → A) (xs : List A)
      → ((x : A) → p x ≡ true → q (f x) ≡ q x)
      → count_where q (update_where p f xs) ≡ count_where q xs
  count_where-update_eq q p f [] h = refl
  count_where-update_eq q p f (x ∷ xs) h = ground (arith, h x, count_where-update_eq q p f xs h)

  pub count_where-of_find?-none :
      (p : A → Bool) (xs : List A) → find? p xs ≡ none → count_where p xs ≡ 0
  count_where-of_find?-none p [] h = refl
  count_where-of_find?-none p (x ∷ xs) h = ground (arith, count_where-of_find?-none p xs)

  pub exists_row-update_eq :
      (q p : A → Bool) (f : A → A) (xs : List A)
      → ((x : A) → p x ≡ true → q (f x) ≡ q x)
      → exists_row q (update_where p f xs) ≡ exists_row q xs
  exists_row-update_eq q p f [] h = refl
  exists_row-update_eq q p f (x ∷ xs) h = ground (arith, h x, exists_row-update_eq q p f xs h)

  -- An update that takes q away from every row that it changes, where no other row has it.
  pub exists_row-update_false :
      (q p : A → Bool) (f : A → A) (xs : List A)
      → ((x : A) → p x ≡ true → q (f x) ≡ false)
      → ((x : A) → p x ≡ false → q x ≡ false)
      → exists_row q (update_where p f xs) ≡ false
  exists_row-update_false q p f [] h k = refl
  exists_row-update_false q p f (x ∷ xs) h k =
      ground (arith, h x, k x, exists_row-update_false q p f xs h k)

  -- An update of no row.
  pub update_where-of_none :
      (p : A → Bool) (f : A → A) (xs : List A) → count_where p xs ≡ 0 → update_where p f xs ≡ xs
  update_where-of_none p f [] h = refl
  update_where-of_none p f (x ∷ xs) h = ground (arith, update_where-of_none p f xs)

  pub exists_row-of_none :
      (p q : A → Bool) (xs : List A)
      → count_where p xs ≡ 0
      → exists_row (λ x. p x && q x) xs ≡ false
  exists_row-of_none p q [] h = refl
  exists_row-of_none p q (x ∷ xs) h = ground (arith, exists_row-of_none p q xs)

  -- An update of the one row with p, which has q already, does not raise the count of q.
  pub count_where-update_unique :
      (q p : A → Bool) (f : A → A) (xs : List A)
      → count_where p xs ≤ 1
      → exists_row (λ x. p x && q x) xs ≡ true
      → count_where q (update_where p f xs) ≤ count_where q xs
  count_where-update_unique q p f [] h e = cc
  count_where-update_unique q p f (x ∷ xs) h e = ground (
    arith,
    count_where-update_unique q p f xs,
    update_where-of_none p f xs,
    exists_row-of_none p q xs,
  )

  pub count_where-exists :
      (p : A → Bool) (xs : List A) → exists_row p xs ≡ false → count_where p xs ≡ 0
  count_where-exists p [] h = refl
  count_where-exists p (x ∷ xs) h = ground (arith, count_where-exists p xs)

  pub exists_row-append :
      (p : A → Bool) (xs ys : List A)
      → exists_row p (xs ++ ys) ≡ (exists_row p xs || exists_row p ys)
  exists_row-append p [] ys = refl
  exists_row-append p (x ∷ xs) ys = ground (arith, exists_row-append p xs ys)

  pub exists_row-update_mono :
      (q p : A → Bool) (f : A → A) (xs : List A)
      → ((x : A) → q x ≡ true → q (f x) ≡ true)
      → exists_row q xs ≡ true
      → exists_row q (update_where p f xs) ≡ true
  exists_row-update_mono q p f [] h e = e
  exists_row-update_mono q p f (x ∷ xs) h e = ground (arith, h x, exists_row-update_mono q p f xs h)

  pub update_where-append :
      (p : A → Bool) (f : A → A) (xs ys : List A)
      → update_where p f (xs ++ ys) ≡ update_where p f xs ++ update_where p f ys
  update_where-append p f [] ys = refl
  update_where-append p f (x ∷ xs) ys = ground (arith, update_where-append p f xs ys)

  -- A row that an update gives q is counted.
  pub count_where-update_ge :
      (q p : A → Bool) (f : A → A) (xs : List A)
      → exists_row (λ x. p x && q (f x)) xs ≡ true
      → 1 ≤ count_where q (update_where p f xs)
  count_where-update_ge q p f [] h = cc
  count_where-update_ge q p f (x ∷ xs) h = ground (arith, count_where-update_ge q p f xs)

  -- The first row with p, after an update of the rows with p that leaves it p.
  pub find?-update :
      (p : A → Bool) (f : A → A) (xs : List A) (x : A)
      → ((y : A) → p (f y) ≡ p y)
      → find? p xs ≡ some x
      → find? p (update_where p f xs) ≡ some (f x)
  find?-update p f [] x k h = cc
  find?-update p f (y ∷ ys) x k h = ground (arith, k y, find?-update p f ys x k)

  pub exists_row-of_find? :
      (p : A → Bool) (xs : List A) (x : A) → find? p xs ≡ some x → exists_row p xs ≡ true
  exists_row-of_find? p [] x h = cc
  exists_row-of_find? p (y ∷ ys) x h = ground (arith, exists_row-of_find? p ys x)

  pub exists_row-of_find?-none :
      (p : A → Bool) (xs : List A) → find? p xs ≡ none → exists_row p xs ≡ false
  exists_row-of_find?-none p [] h = refl
  exists_row-of_find?-none p (x ∷ xs) h = ground (arith, exists_row-of_find?-none p xs)

  pub find?-of_exists : (p : A → Bool) (xs : List A) → exists_row p xs ≡ false → find? p xs ≡ none
  find?-of_exists p [] h = refl
  find?-of_exists p (x ∷ xs) h = ground (arith, find?-of_exists p xs)
