-- ===== src/Transfers/Deleting.antt =====
-- What deletePattern does to the list of names, branch by branch.
use led_display_g6_firmware.Common.{
  ℕ, suc, ◌-◌, ◌≤◌, ◌<◌, ◌≡◌, ap, ◌∙◌, true, false, List, length, arith, ◌==◌,
}
use led_display_g6_firmware.Patterns.Catalog.{
  Name, Catalog, Card, delete_at, remove_at, delete_pattern, ce_none,
}
use led_display_g6_firmware.Patterns.Ordering.{length-delete_at}

-- What deletePattern does to the list of names.
module _ (k : Card) (idx : ℕ) (c : Catalog) where
  pub delete_pattern-failed :
      k.manifest ≡ true
      → ((delete_pattern k idx c).0 == ce_none) ≡ false
      → (delete_pattern k idx c).1.names ≡ c.names
  unfolding delete_pattern remove_at
  delete_pattern-failed m h = ground (arith, m, h)

  pub delete_pattern-listed : ((delete_pattern k idx c).0 == ce_none) ≡ true → idx ≤ length c.names
  unfolding delete_pattern remove_at
  delete_pattern-listed h = ground (arith, h)

  pub delete_pattern-temp : idx ≡ 0 → (delete_pattern k idx c).1.names ≡ c.names
  unfolding delete_pattern remove_at
  delete_pattern-temp z = ground (arith, z)

  pub delete_pattern-names :
      0 < idx
      → ((delete_pattern k idx c).0 == ce_none) ≡ true
      → (delete_pattern k idx c).1.names ≡ delete_at (idx - 1) c.names
  unfolding delete_pattern remove_at
  delete_pattern-names z h = ground (arith, z, h)

  pub delete_pattern-shorter :
      0 < idx
      → ((delete_pattern k idx c).0 == ce_none) ≡ true
      → suc (length (delete_pattern k idx c).1.names) ≡ length c.names
  delete_pattern-shorter z h =
      ap (λ (xs : List Name). suc (length xs)) (delete_pattern-names z h)
      ∙ length-delete_at (idx - 1) c.names (omega (arith, z, delete_pattern-listed h))
