-- ===== src/Patterns/Handle.antt =====
-- What deleting a pattern does to the open handle.
use led_display_g6_firmware.Common.{
  ℕ, zero, suc, ◌-◌, ◌≤◌, ◌<◌, ◌≡◌, ◌≢◌, refl, ap, ◌∙◌, true, false, List, [], ◌∷◌, length, get_or,
  arith,
}
use led_display_g6_firmware.Patterns.Catalog.{
  Name, Catalog, Card, delete_at, remove_at, delete_pattern,
}

pub get_or-delete_below :
    (p i : ℕ) (xs : List Name) → i < p → get_or (delete_at p xs) i [] ≡ get_or xs i []
get_or-delete_below p i [] h = refl
get_or-delete_below zero i (y ∷ ys) h = absurd (omega arith)
get_or-delete_below (suc p) zero (y ∷ ys) h = refl
get_or-delete_below (suc p) (suc i) (y ∷ ys) h = get_or-delete_below p i ys (omega arith)

pub get_or-delete_above :
    (p i : ℕ) (xs : List Name) → p ≤ i → get_or (delete_at p xs) i [] ≡ get_or xs (suc i) []
get_or-delete_above p i [] h = refl
get_or-delete_above zero i (y ∷ ys) h = refl
get_or-delete_above (suc p) zero (y ∷ ys) h = absurd (omega arith)
get_or-delete_above (suc p) (suc i) (y ∷ ys) h = get_or-delete_above p i ys (omega arith)

-- The open file has the name of the handle's number.
pub record Handle (c : Catalog) : Type 0 where
  pub is_open : c.file_open ≡ true
  pub some : 0 < c.open_id
  pub listed : c.open_id ≤ length c.names
  pub same : get_or c.names (c.open_id - 1) [] ≡ c.file

module _ (k : Card) (id : ℕ) (c : Catalog) (mounted : c.mounted ≡ true) (done : k.done ≡ true)
    (some : 0 < id) (listed : id ≤ length c.names) where
  abbrev after : Catalog
  after = (delete_pattern k id c).1

  after_names : after.names ≡ delete_at (id - 1) c.names
  unfolding delete_pattern remove_at
  after_names = ground arith

  after_open : c.open_id ≢ id → after.file_open ≡ c.file_open
  unfolding delete_pattern remove_at
  after_open h = ground arith

  after_closed : c.file_open ≡ true → c.open_id ≡ id → after.file_open ≡ false
  unfolding delete_pattern remove_at
  after_closed h e = ground arith

  after_id : after.open_id ≡ c.open_id
  unfolding delete_pattern remove_at
  after_id = ground arith

-- What deleting pattern `id` did to the handle.
pub record Deleted (id : ℕ) (c after : Catalog) : Type 0 where
  pub own : c.open_id ≡ id → after.file_open ≡ false
  pub number : after.open_id ≡ c.open_id
  pub above : c.open_id < id → get_or after.names (c.open_id - 1) [] ≡ c.file
  pub below : id < c.open_id → get_or after.names (c.open_id - 2) [] ≡ c.file

-- When the card deletes a listed pattern, the handle is closed if it was that pattern's, and keeps
-- its number otherwise. The open file is still listed under that number if the deleted pattern stood
-- above it, and under the number before if it stood below it.
pub delete_pattern-Deleted :
    (k : Card) (id : ℕ) (c : Catalog)
    → c.mounted ≡ true
    → k.done ≡ true
    → 0 < id
    → id ≤ length c.names
    → Handle c
    → Deleted id c (delete_pattern k id c).1
delete_pattern-Deleted k id c mounted done some listed v = record {
  own = after_closed k id c mounted done some listed v.is_open;
  number = after_id k id c mounted done some listed;
  above = λ h.
      ap (λ (xs : List Name). get_or xs (c.open_id - 1) []) names
      ∙ get_or-delete_below (id - 1) (c.open_id - 1) c.names (omega (arith, v.some))
      ∙ v.same;
  below = λ h.
      ap (λ (xs : List Name). get_or xs (c.open_id - 2) []) names
      ∙ get_or-delete_above (id - 1) (c.open_id - 2) c.names (omega arith)
      ∙ ap (λ (n : ℕ). get_or c.names n []) {y = c.open_id - 1} (omega arith)
      ∙ v.same;
}
  where
    names : (delete_pattern k id c).1.names ≡ delete_at (id - 1) c.names
    names = after_names k id c mounted done some listed
