-- ===== src/Prelude/Sorting.antt =====
-- Stable sorting by a Boolean order: the sort of the standard library and of `itertools`.
use mathlib.Core.Path.{◌≡◌, refl, ap, ◌∙◌}
use mathlib.Core.Bool.{Bool, true}
use mathlib.Core.List.{
  List, [], ◌∷◌, map, Perm, Permᴰ, Nodup, Nodup-cons, mem-cons_self, List-discrete,
}
use mathlib.Core.List.Perm
use mathlib.Core.Logic.{◌⊎◌, ◌≢◌, inl, inr, ∥∥₁_elim}
use mathlib.Core.HLevel.{hedberg}
use native.Mathlib.Omega.{arith}
use Prim.Native.Nat.{ℕ, suc}
use native.Mathlib.Nat.{ℕ_set}
use tss_libp2p.Prelude.Lists.{length}
use tss_libp2p.Prelude.Tests.{if◌then◌else◌, Bool-cases, leb}

-- A total order, as a key of bytes has it when different elements have different keys.
pub record IsTotalOrder {ℓ} {A : Type ℓ} (le : A → A → Bool) : Type ℓ where
  pub total : (a b : A) → (le a b ≡ true) ⊎ (le b a ≡ true)
  pub antisym : (a b : A) → le a b ≡ true → le b a ≡ true → a ≡ b
  pub trans : (a b c : A) → le a b ≡ true → le b c ≡ true → le a c ≡ true

module _ {ℓ} {A : Type ℓ} (le : A → A → Bool) where
  unfoldable pub insert : A → List A → List A
  insert x [] = x ∷ []
  insert x (y ∷ ys) = if le x y then x ∷ y ∷ ys else y ∷ insert x ys

  unfoldable pub sort : List A → List A
  unfolding insert
  sort [] = []
  sort (x ∷ xs) = insert x (sort xs)

  insert-perm : (x : A) (xs : List A) → Perm (insert x xs) (x ∷ xs)
  unfolding insert
  insert-perm x [] = Perm.refl (x ∷ [])
  insert-perm x (y ∷ ys) = elim (Bool-cases (le x y)) [
    | inl e ↦ rw e (Perm.refl (x ∷ y ∷ ys))
    | inr e ↦ rw e (Perm.trans (Perm.cons y (insert-perm x ys)) (Perm.swap x y ys))
  ]

  pub sort-perm : (xs : List A) → Perm (sort xs) xs
  unfolding sort
  sort-perm [] = Perm.nil
  sort-perm (x ∷ xs) = Perm.trans (insert-perm x (sort xs)) (Perm.cons x (sort-perm xs))

module _ {ℓ} {A : Type ℓ} {le : A → A → Bool} (ord : IsTotalOrder le) where
  insert_comm : (x y : A) (l : List A) → insert le x (insert le y l) ≡ insert le y (insert le x l)
  unfolding insert
  insert_comm x y [] = ground (arith, ord.total x y, ord.antisym x y)
  insert_comm x y (z ∷ zs) =
      ground (
        arith,
        ord.total x y,
        ord.antisym x y,
        ord.trans x y z,
        ord.trans y x z,
        insert_comm x y zs,
      )

  sort_of_permᴰ : {xs ys : List A} → Permᴰ xs ys → sort le xs ≡ sort le ys
  unfolding sort
  sort_of_permᴰ Permᴰ.nil = refl
  sort_of_permᴰ (Permᴰ.cons e p) = cc (sort_of_permᴰ p)
  sort_of_permᴰ (Permᴰ.swap {a} {b} {l = l} e f) = cc (insert_comm a b (sort le l))
  sort_of_permᴰ (Permᴰ.trans p q) = sort_of_permᴰ p ∙ sort_of_permᴰ q

  -- The result does not depend on the order in which the elements came.
  pub sort_of_perm : Discrete A → {xs ys : List A} → Perm xs ys → sort le xs ≡ sort le ys
  sort_of_perm d p = ∥∥₁_elim p (hedberg (List-discrete d) _ _) sort_of_permᴰ

  pub sort-sort : Discrete A → (xs : List A) → sort le (sort le xs) ≡ sort le xs
  sort-sort d xs = sort_of_perm d (sort-perm le xs)

module _ {ℓ} {A : Type ℓ} where
  length_of_permᴰ : {xs ys : List A} → Permᴰ xs ys → length xs ≡ length ys
  length_of_permᴰ Permᴰ.nil = refl
  length_of_permᴰ (Permᴰ.cons e p) = ap suc (length_of_permᴰ p)
  length_of_permᴰ (Permᴰ.swap e f) = refl
  length_of_permᴰ (Permᴰ.trans p q) = length_of_permᴰ p ∙ length_of_permᴰ q

  pub length-perm : {xs ys : List A} → Perm xs ys → length xs ≡ length ys
  length-perm p = ∥∥₁_elim p (ℕ_set _ _) length_of_permᴰ

-- Greater keys first. Elements of one key keep the order in which they came.
module _ {ℓ} {A : Type ℓ} (key : A → ℕ) where
  abbrev pub descending : A → A → Bool
  descending a b = leb (key b) (key a)

  insert_comm_key :
      (a b : A) (l : List A)
      → key a ≢ key b
      → insert descending a (insert descending b l) ≡ insert descending b (insert descending a l)
  unfolding insert
  insert_comm_key a b [] h = ground arith
  insert_comm_key a b (c ∷ l) h = ground (arith, insert_comm_key a b l h)

  sort-descending_of_permᴰ :
      {xs ys : List A} → Permᴰ xs ys → Nodup (map key xs) → sort descending xs ≡ sort descending ys
  unfolding sort
  sort-descending_of_permᴰ Permᴰ.nil n = refl
  sort-descending_of_permᴰ (Permᴰ.cons e p) n =
      cc (e, sort-descending_of_permᴰ p (Nodup-cons.0 n).1)
  sort-descending_of_permᴰ (Permᴰ.swap {a} {b} {l = l} e f) n = cc (
    e,
    f,
    insert_comm_key a b (sort descending l) (λ same. (Nodup-cons.0 n).0 (rw same mem-cons_self)),
  )
  sort-descending_of_permᴰ (Permᴰ.trans p q) n =
      sort-descending_of_permᴰ p n ∙ sort-descending_of_permᴰ q (Perm.nodup (Perm.map key ∣ p ∣₁) n)

  -- With distinct keys the result does not depend on the order in which the elements came.
  pub sort-descending_of_perm :
      Discrete A
      → {xs ys : List A} → Perm xs ys
      → Nodup (map key xs)
      → sort descending xs ≡ sort descending ys
  sort-descending_of_perm d p n =
      ∥∥₁_elim p (hedberg (List-discrete d) _ _) λ q. sort-descending_of_permᴰ q n

module _ {ℓ κ} {A : Type ℓ} {B : Type κ} (f : A → B) (key : B → ℕ) where
  map-insert :
      (a : A) (xs : List A)
      → map f (insert (descending (λ x. key (f x))) a xs) ≡ insert (descending key) (f a) (map f xs)
  unfolding insert
  map-insert a [] = refl
  map-insert a (x ∷ xs) = ground (arith, map-insert a xs)

  -- Sorting goes by the key alone.
  pub map-sort-descending :
      (xs : List A)
      → map f (sort (descending (λ x. key (f x))) xs) ≡ sort (descending key) (map f xs)
  unfolding sort
  map-sort-descending [] = refl
  map-sort-descending (x ∷ xs) =
      map-insert x (sort (descending (λ y. key (f y))) xs)
      ∙ ap (insert (descending key) (f x)) (map-sort-descending xs)
