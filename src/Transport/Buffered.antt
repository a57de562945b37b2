-- ===== src/Transport/Buffered.antt =====
-- The bytes in the receive buffer, as a list: what reading one, copying some and consuming some do.
use led_display_g6_firmware.Common.{
  ℕ, zero, suc, ◌+◌, ◌<◌, ◌≡◌, refl, sym, ap, subst, ◌∙◌, List, ◌∷◌, ◌++◌, length, get_or, arith,
  length-append, drop, take, drop-append, take-append,
}
use led_display_g6_firmware.Common.Bytes.{Memory, bytes_at, length-bytes_at, get_or-bytes_at}
use led_display_g6_firmware.Transport.Rx.{Rx, shifted, consume}

abbrev pub pending : Rx → List ℕ
pending r = bytes_at r.rx_buf 0 r.rx_len

pub zero_add : (n : ℕ) → 0 + n ≡ n
zero_add n = omega arith

add_zero : (n : ℕ) → n + 0 ≡ n
add_zero n = omega arith

suc_add : (a b : ℕ) → suc a + b ≡ suc (a + b)
suc_add a b = omega arith

pub bytes_at-append :
    (m : Memory) (off a b : ℕ) → bytes_at m off (a + b) ≡ bytes_at m off a ++ bytes_at m (off + a) b
bytes_at-append m off zero b = rw (zero_add b, add_zero off) refl
bytes_at-append m off (suc a) b =
    ap (bytes_at m off) (suc_add a b)
    ∙ ap (λ (xs : List ℕ). m off ∷ xs)
        (bytes_at-append m (off + 1) a b
          ∙ ap (λ (n : ℕ). bytes_at m (off + 1) a ++ bytes_at m n b) {y = off + suc a}
              (omega arith))

bytes_at_moved :
    (m m' : Memory) (off off' n : ℕ)
    → ((i : ℕ) → i < n → m (off + i) ≡ m' (off' + i))
    → bytes_at m off n ≡ bytes_at m' off' n
bytes_at_moved m m' off off' zero h = refl
bytes_at_moved m m' off off' (suc n) h =
    ap (λ (b : ℕ). b ∷ bytes_at m (off + 1) n)
      (ap m (omega arith) ∙ h 0 (omega arith) ∙ ap m' (omega arith))
    ∙ ap (λ (xs : List ℕ). m' off' ∷ xs)
        (bytes_at_moved m m' (off + 1) (off' + 1) n
          (λ i k. ap m (omega arith) ∙ h (suc i) (omega arith) ∙ ap m' (omega arith)))

module _ (r : Rx) (xs : List ℕ) (v : pending r ≡ xs) where
  pub pending_len : r.rx_len ≡ length xs
  pending_len = sym (length-bytes_at r.rx_buf 0 r.rx_len) ∙ ap length v

  pub pending_byte : (i : ℕ) → i < length xs → r.rx_buf i ≡ get_or xs i 0
  pending_byte i h =
      ap r.rx_buf (omega arith)
      ∙ sym (get_or-bytes_at r.rx_buf 0 r.rx_len i (omega (arith, pending_len)))
      ∙ ap (λ (ys : List ℕ). get_or ys i 0) v

-- A buffer that starts with `f`.
module _ (r : Rx) (f rest : List ℕ) (v : pending r ≡ f ++ rest) where
  long : r.rx_len ≡ length f + length rest
  long = pending_len r (f ++ rest) v ∙ length-append f rest

  apart : f ++ rest ≡ bytes_at r.rx_buf 0 (length f) ++ bytes_at r.rx_buf (length f) (length rest)
  apart =
      sym v
      ∙ ap (bytes_at r.rx_buf 0) long
      ∙ bytes_at-append r.rx_buf 0 (length f) (length rest)
      ∙ ap (λ (n : ℕ). bytes_at r.rx_buf 0 (length f) ++ bytes_at r.rx_buf n (length rest))
          (zero_add (length f))

  pub copied_front : bytes_at r.rx_buf 0 (length f) ≡ f
  copied_front =
      sym (
        subst
          (λ (n : ℕ).
            take n (bytes_at r.rx_buf 0 (length f) ++ bytes_at r.rx_buf (length f) (length rest))
            ≡ bytes_at r.rx_buf 0 (length f))
          (length-bytes_at r.rx_buf 0 (length f))
          (take-append (bytes_at r.rx_buf 0 (length f))
            (bytes_at r.rx_buf (length f) (length rest))))
      ∙ ap (take (length f)) (sym apart)
      ∙ take-append f rest

  back_bytes : bytes_at r.rx_buf (length f) (length rest) ≡ rest
  back_bytes =
      sym (
        subst
          (λ (n : ℕ).
            drop n (bytes_at r.rx_buf 0 (length f) ++ bytes_at r.rx_buf (length f) (length rest))
            ≡ bytes_at r.rx_buf (length f) (length rest))
          (length-bytes_at r.rx_buf 0 (length f))
          (drop-append (bytes_at r.rx_buf 0 (length f))
            (bytes_at r.rx_buf (length f) (length rest))))
      ∙ ap (drop (length f)) (sym apart)
      ∙ drop-append f rest

  shifted_byte :
      (i : ℕ)
      → i < length rest
      → shifted r.rx_buf r.rx_len (length f) (0 + i) ≡ r.rx_buf (length f + i)
  shifted_byte i h = ground (arith, long)

  pub consume_rest : pending (consume r (length f)) ≡ rest
  unfolding consume
  consume_rest =
      ap (bytes_at (shifted r.rx_buf r.rx_len (length f)) 0) (omega (arith, long))
      ∙ bytes_at_moved (shifted r.rx_buf r.rx_len (length f)) r.rx_buf 0 (length f) (length rest)
          shifted_byte
      ∙ back_bytes
