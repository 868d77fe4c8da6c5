-- ===== src/Srv/Sort.antt =====
-- `Vec::sort_by`, `Vec::dedup` and `Vec::contains` of the standard library. The sort is a stable
-- insertion sort; it stands for the library's where the order is a total preorder.
use xmpp_proxy.Prelude.{
  Ordering, ◌≡◌, ◌⊎◌, inl, inr, refl, subst, Bool, true, false, ◌||◌, Bool-cases, if◌then◌else◌,
  List, [], ◌∷◌, ◌++◌,
}

abbrev pub is_gt : Ordering → Bool
is_gt Ordering.gt = true
is_gt _ = false

-- `x` is one of the elements
pub data Among {ℓ} {A : Type ℓ} (x : A) : List A → Type ℓ where
  first : {xs : List A} → Among x (x ∷ xs)
  later : {y : A} {xs : List A} → Among x xs → Among x (y ∷ xs)

module _ {ℓ} {A : Type ℓ} (cmp : A → A → Ordering) where
  unfoldable pub insert_by : A → List A → List A
  insert_by x [] = x ∷ []
  insert_by x (y ∷ ys) = if is_gt (cmp x y) then y ∷ insert_by x ys else x ∷ y ∷ ys

  unfoldable pub sort_by : List A → List A
  unfolding insert_by
  sort_by [] = []
  sort_by (x ∷ xs) = insert_by x (sort_by xs)

module _ {ℓ} {A : Type ℓ} where
  -- membership moves under an element
  Among-swap :
      {x y z : A} {zs rs : List A}
      → (Among x (y ∷ zs) → Among x rs)
      → Among x (y ∷ z ∷ zs)
      → Among x (z ∷ rs)
  Among-swap f first = later (f first)
  Among-swap f (later first) = first
  Among-swap f (later (later m)) = later (f (later m))

  Among-unswap :
      {x y z : A} {zs rs : List A}
      → (Among x rs → Among x (y ∷ zs))
      → Among x (z ∷ rs)
      → Among x (y ∷ z ∷ zs)
  Among-unswap f first = later first
  Among-unswap {x} {y} {z} {zs} f (later m) = under (f m)
    where
      under : {w : A} → Among w (y ∷ zs) → Among w (y ∷ z ∷ zs)
      under first = first
      under (later n) = later (later n)

  Among-cons :
      {x y : A} {xs ys : List A} → (Among x xs → Among x ys) → Among x (y ∷ xs) → Among x (y ∷ ys)
  Among-cons f first = first
  Among-cons f (later m) = later (f m)

  module _ (cmp : A → A → Ordering) where
    Among-insert_by : (x y : A) (xs : List A) → Among x (y ∷ xs) → Among x (insert_by cmp y xs)
    unfolding insert_by
    Among-insert_by x y [] m = m
    Among-insert_by x y (z ∷ zs) m = elim (Bool-cases (is_gt (cmp y z))) [
      | inl gt ↦ rw gt (Among-swap (Among-insert_by x y zs) m)
      | inr le ↦ rw le m
    ]

    insert_by-Among : (x y : A) (xs : List A) → Among x (insert_by cmp y xs) → Among x (y ∷ xs)
    unfolding insert_by
    insert_by-Among x y [] m = m
    insert_by-Among x y (z ∷ zs) m = elim (Bool-cases (is_gt (cmp y z))) [
      | inl gt ↦
          Among-unswap (insert_by-Among x y zs)
            (subst (λ b. Among x (if b then z ∷ insert_by cmp y zs else y ∷ z ∷ zs)) gt m)
      | inr le ↦ subst (λ b. Among x (if b then z ∷ insert_by cmp y zs else y ∷ z ∷ zs)) le m
    ]

    -- A sort keeps the elements, whatever the order is.
    pub Among-sort_by : (x : A) (xs : List A) → Among x xs → Among x (sort_by cmp xs)
    unfolding sort_by
    Among-sort_by x [] m = m
    Among-sort_by x (y ∷ ys) m =
        Among-insert_by x y (sort_by cmp ys) (Among-cons (Among-sort_by x ys) m)

    pub sort_by-Among : (x : A) (xs : List A) → Among x (sort_by cmp xs) → Among x xs
    unfolding sort_by
    sort_by-Among x [] m = m
    sort_by-Among x (y ∷ ys) m =
        Among-cons (sort_by-Among x ys) (insert_by-Among x y (sort_by cmp ys) m)

  -- no element stands before one that should stand before it
  pub data IsOrdered (cmp : A → A → Ordering) : List A → Type ℓ where
    no_element : IsOrdered cmp []
    before :
        {x : A} {xs : List A}
        → ((y : A) → Among y xs → is_gt (cmp x y) ≡ false)
        → IsOrdered cmp xs
        → IsOrdered cmp (x ∷ xs)

  module _ (cmp : A → A → Ordering)
      (total : (x y : A) → is_gt (cmp x y) ≡ true → is_gt (cmp y x) ≡ false)
      (trans : (x y z : A)
        → is_gt (cmp x y) ≡ false
        → is_gt (cmp y z) ≡ false
        → is_gt (cmp x z) ≡ false) where
    below :
        (z : A) {y : A} {ys : List A} (x : A)
        → is_gt (cmp z x) ≡ false
        → ((w : A) → Among w ys → is_gt (cmp z w) ≡ false)
        → Among y (x ∷ ys)
        → is_gt (cmp z y) ≡ false
    below z x a f first = a
    below z x a f (later m) = f _ m

    insert_by-IsOrdered :
        (x : A) (xs : List A) → IsOrdered cmp xs → IsOrdered cmp (insert_by cmp x xs)
    unfolding insert_by
    insert_by-IsOrdered x [] o = before (λ y m. elim m [ ]) no_element
    insert_by-IsOrdered x (z ∷ zs) (before f o) = elim (Bool-cases (is_gt (cmp x z))) [
      | inl gt ↦ rw gt (
          before (λ y m. below z x (total x z gt) f (insert_by-Among cmp y x zs m))
            (insert_by-IsOrdered x zs o))
      | inr le ↦ rw le (before (λ y m. below x z le (λ w n. trans x z w le (f w n)) m) (before f o))
    ]

    pub sort_by-IsOrdered : (xs : List A) → IsOrdered cmp (sort_by cmp xs)
    unfolding sort_by
    sort_by-IsOrdered [] = no_element
    sort_by-IsOrdered (x ∷ xs) = insert_by-IsOrdered x (sort_by cmp xs) (sort_by-IsOrdered xs)

  -- an element pushed behind a list
  pub Among-snoc : (xs : List A) {x y : A} → Among x (xs ++ y ∷ []) → Among x xs ⊎ (y ≡ x)
  Among-snoc [] first = inr refl
  Among-snoc [] (later m) = elim m [ ]
  Among-snoc (z ∷ zs) first = inl first
  Among-snoc (z ∷ zs) (later m) = elim (Among-snoc zs m) [ inl n ↦ inl (later n) | inr e ↦ inr e ]

-- `dedup`: an element that equals the last one kept goes
module _ {ℓ} {A : Type ℓ} (eq : A → A → Bool) where
  unfoldable pub dedup_from : A → List A → List A
  dedup_from kept [] = []
  dedup_from kept (y ∷ ys) =
      let dropped = dedup_from kept ys in
      let taken = y ∷ dedup_from y ys in if eq y kept then dropped else taken

  unfoldable pub dedup : List A → List A
  unfolding dedup_from
  dedup [] = []
  dedup (x ∷ xs) = x ∷ dedup_from x xs

  -- `contains`
  unfoldable pub contains : List A → A → Bool
  contains [] a = false
  contains (x ∷ xs) a = eq x a || contains xs a

  dedup_from-Among : (x kept : A) (xs : List A) → Among x (dedup_from kept xs) → Among x xs
  unfolding dedup_from
  dedup_from-Among x kept [] m = m
  dedup_from-Among x kept (y ∷ ys) m = elim (Bool-cases (eq y kept)) [
    | inl same ↦ later (
        dedup_from-Among x kept ys
          (subst (λ b. Among x (if b then dedup_from kept ys else y ∷ dedup_from y ys)) same m))
    | inr new ↦
        Among-cons (dedup_from-Among x y ys)
          (subst (λ b. Among x (if b then dedup_from kept ys else y ∷ dedup_from y ys)) new m)
  ]

  pub dedup-Among : (x : A) (xs : List A) → Among x (dedup xs) → Among x xs
  unfolding dedup
  dedup-Among x [] m = m
  dedup-Among x (y ∷ ys) m = Among-cons (dedup_from-Among x y ys) m

  -- an element of the list, or one that equals it, is kept
  abbrev pub Kept : A → List A → Type ℓ
  Kept x xs = (y : A) × Among y xs × ((eq x y ≡ true) ⊎ (x ≡ y))

  Kept-dedup_from : (x kept : A) (xs : List A) → Among x xs → Kept x (kept ∷ dedup_from kept xs)
  unfolding dedup_from
  Kept-dedup_from x kept [] m = elim m [ ]
  Kept-dedup_from x kept (y ∷ ys) first = elim (Bool-cases (eq y kept)) [
    | inl same ↦ rw same (kept, first, inl same)
    | inr new ↦ rw new (y, later first, inr refl)
  ]
  Kept-dedup_from x kept (y ∷ ys) (later m) = elim (Bool-cases (eq y kept)) [
    | inl same ↦ rw same (Kept-dedup_from x kept ys m)
    | inr new ↦ rw new (let (w, n, e) = Kept-dedup_from x y ys m in (w, later n, e))
  ]

  pub Kept-dedup : (x : A) (xs : List A) → Among x xs → Kept x (dedup xs)
  unfolding dedup
  Kept-dedup x [] m = elim m [ ]
  Kept-dedup x (y ∷ ys) first = (y, first, inr refl)
  Kept-dedup x (y ∷ ys) (later m) = Kept-dedup_from x y ys m
