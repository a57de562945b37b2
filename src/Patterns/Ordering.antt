-- ===== src/Patterns/Ordering.antt =====
-- The order of names, and sorted lists of names under insertion and deletion.
use led_display_g6_firmware.Common.{
  ℕ, zero, suc, ◌≤◌, ◌<◌, ◌≡◌, refl, sym, ap, subst, ◌∙◌, true, false, List, [], ◌∷◌, length,
  get_or, ltb, arith, Bool-cases, inl, inr,
}
use led_display_g6_firmware.Patterns.Catalog.{Name, greater, insert_pos, insert_at, delete_at}

greater_asym : (a b : Name) → greater a b ≡ true → greater b a ≡ false
greater_asym [] b h = absurd (ground (arith, h))
greater_asym (x ∷ a) [] h = refl
greater_asym (x ∷ a) (y ∷ b) h = ground (arith, greater_asym a b)

greater_trans : (a b c : Name) → greater a b ≡ false → greater b c ≡ false → greater a c ≡ false
greater_trans [] b c h k = refl
greater_trans (x ∷ a) [] c h k = absurd (ground (arith, h))
greater_trans (x ∷ a) (y ∷ b) [] h k = absurd (ground (arith, k))
greater_trans (x ∷ a) (y ∷ b) (z ∷ c) h k = ground (arith, greater_trans a b c)

-- No name is greater than the next one.
abbrev pub Sorted : List Name → Type 0
Sorted [] = zero ≡ zero
Sorted (x ∷ []) = zero ≡ zero
Sorted (x ∷ y ∷ xs) = (greater x y ≡ false) × Sorted (y ∷ xs)

Sorted-tail : (x : Name) (xs : List Name) → Sorted (x ∷ xs) → Sorted xs
Sorted-tail x [] s = refl
Sorted-tail x (y ∷ xs) s = s.1

-- A name at the head that is not greater than the first of a sorted list.
Sorted-cons :
    (x : Name) (xs : List Name)
    → (0 < length xs → greater x (get_or xs 0 []) ≡ false)
    → Sorted xs
    → Sorted (x ∷ xs)
Sorted-cons x [] h s = refl
Sorted-cons x (y ∷ xs) h s = (h (omega arith), s)

pub insert_at-Sorted :
    (p : ℕ) (x : Name) (xs : List Name)
    → p ≤ length xs
    → ((q : ℕ) → p ≡ suc q → greater (get_or xs q []) x ≡ false)
    → (p < length xs → greater x (get_or xs p []) ≡ false)
    → Sorted xs
    → Sorted (insert_at p x xs)
insert_at-Sorted zero x xs h below above s = Sorted-cons x xs above s
insert_at-Sorted (suc p) x [] h below above s = absurd (omega arith)
insert_at-Sorted (suc zero) x (y ∷ ys) h below above s =
    (below 0 refl, Sorted-cons x ys (λ k. above (omega arith)) (Sorted-tail y ys s))
insert_at-Sorted (suc (suc p)) x (y ∷ []) h below above s = absurd (omega arith)
insert_at-Sorted (suc (suc p)) x (y ∷ z ∷ ys) h below above s = (
  s.0,
  insert_at-Sorted (suc p) x (z ∷ ys) (omega arith) (λ q e. below (suc q) (ap suc e))
      (λ k. above (omega arith)) s.1,
)

pub delete_at-Sorted : (p : ℕ) (xs : List Name) → Sorted xs → Sorted (delete_at p xs)
delete_at-Sorted p [] s = refl
delete_at-Sorted zero (y ∷ ys) s = Sorted-tail y ys s
delete_at-Sorted (suc p) (y ∷ []) s = refl
delete_at-Sorted (suc zero) (y ∷ z ∷ []) s = refl
delete_at-Sorted (suc zero) (y ∷ z ∷ w ∷ ys) s = (greater_trans y z w s.0 s.1.0, s.1.1)
delete_at-Sorted (suc (suc p)) (y ∷ z ∷ ys) s = (s.0, delete_at-Sorted (suc p) (z ∷ ys) s.1)

-- Where the loop of insertSorted stops.
pub insert_pos_bound : (names : List Name) (x : Name) (n : ℕ) → insert_pos names x n ≤ n
insert_pos_bound names x zero = omega arith
insert_pos_bound names x (suc n) = ground (arith, insert_pos_bound names x n)

module _ (names : List Name) (x : Name) (n : ℕ) where
  pos_down :
      greater (get_or names n []) x ≡ true → insert_pos names x (suc n) ≡ insert_pos names x n
  pos_down h = rw h refl

  pos_stop : greater (get_or names n []) x ≡ false → insert_pos names x (suc n) ≡ suc n
  pos_stop h = rw h refl

pub insert_pos_below :
    (names : List Name) (x : Name) (n q : ℕ)
    → insert_pos names x n ≡ suc q
    → greater (get_or names q []) x ≡ false
insert_pos_below names x zero q e = absurd (omega (arith, e))
insert_pos_below names x (suc n) q e = elim (Bool-cases (greater (get_or names n []) x)) [
  | inl h ↦ insert_pos_below names x n q (sym (pos_down names x n h) ∙ e)
  | inr h ↦
      subst (λ (m : ℕ). greater (get_or names m []) x ≡ false) {x = n} {y = q}
        (omega (arith, pos_stop names x n h, e)) h
]

pub insert_pos_above :
    (names : List Name) (x : Name) (n : ℕ)
    → insert_pos names x n < n
    → greater (get_or names (insert_pos names x n) []) x ≡ true
insert_pos_above names x zero h = absurd (omega arith)
insert_pos_above names x (suc n) h = elim (Bool-cases (greater (get_or names n []) x)) [
  | inl g ↦
      subst (λ (m : ℕ). greater (get_or names m []) x ≡ true) (sym (pos_down names x n g))
        (elim (Bool-cases (ltb (insert_pos names x n) n)) [
          | inl k ↦ insert_pos_above names x n (ground (arith, k))
          | inr k ↦
              subst (λ (m : ℕ). greater (get_or names m []) x ≡ true) {x = n}
                {y = insert_pos names x n} (ground (arith, k, insert_pos_bound names x n)) g
        ])
  | inr g ↦ absurd (omega (arith, h, pos_stop names x n g))
]

pub insertion-Sorted :
    (x : Name) (xs : List Name) → Sorted xs → Sorted (insert_at (insert_pos xs x (length xs)) x xs)
insertion-Sorted x xs s =
    insert_at-Sorted (insert_pos xs x (length xs)) x xs (insert_pos_bound xs x (length xs))
      (λ q e. insert_pos_below xs x (length xs) q e)
      (λ k.
        greater_asym (get_or xs (insert_pos xs x (length xs)) []) x
          (insert_pos_above xs x (length xs) k))
      s

pub length-insert_at :
    (p : ℕ) (x : Name) (xs : List Name) → length (insert_at p x xs) ≡ suc (length xs)
length-insert_at zero x xs = refl
length-insert_at (suc p) x [] = refl
length-insert_at (suc p) x (y ∷ ys) = ap suc (length-insert_at p x ys)

pub length-delete_at :
    (p : ℕ) (xs : List Name) → p < length xs → suc (length (delete_at p xs)) ≡ length xs
length-delete_at p [] h = absurd (omega arith)
length-delete_at zero (y ∷ ys) h = refl
length-delete_at (suc p) (y ∷ ys) h = ap suc (length-delete_at p ys (omega arith))
