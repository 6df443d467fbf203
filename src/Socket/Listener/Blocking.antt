-- ===== src/Socket/Listener/Blocking.antt =====
-- statsgod/socket.go: when `BlockForSocket` returns.
use statsgod.Socket.Listener.{block_for_socket}
use statsgod.Prelude.{
  ltb, inr, inl, Bool-cases, arith, some, ◌<◌, ◌≤◌, ◌⊎◌, zero, ◌*◌, true, false, ◌+◌, ◌≡◌, suc,
  Bool, ℕ,
}

abbrev pub microsecond : ℕ
microsecond = 1000

-- The socket is not active in any round before.
abbrev pub IsInactiveBefore : (ℕ → Bool) → ℕ → Type 0
IsInactiveBefore active zero = Unit
IsInactiveBefore active (suc i) = (active i ≡ false) × IsInactiveBefore active i

-- It returns in this round: the socket is active then and was not before, or the timeout has passed;
-- there were at most as many sleeps as microseconds in the timeout before.
pub record IsReturn (active : ℕ → Bool) (since : ℕ → ℕ) (timeout r : ℕ) : Type 0 where
  pub reason : (active r ≡ true) ⊎ ((active r ≡ false) × (timeout < since r))
  pub inactive : IsInactiveBefore active r
  pub bound : r * microsecond ≤ timeout

module _ (active : ℕ → Bool) (since : ℕ → ℕ) (timeout : ℕ) where
  block_for_socket-from :
      (fuel i : ℕ)
      → ((k : ℕ) → (k + 1) * microsecond ≤ since k)
      → timeout < (fuel + i) * microsecond
      → i * microsecond ≤ timeout
      → IsInactiveBefore active i
      → (r : ℕ) × (block_for_socket fuel active since timeout i ≡ some r)
        × IsReturn active since timeout r
  unfolding block_for_socket
  block_for_socket-from zero i s h k b = absurd (omega arith)
  block_for_socket-from (suc fuel) i s h k b = elim (Bool-cases (active i)) [
    | inl on ↦ (i, rw on, record { reason = inl on; inactive = b; bound = k })
    | inr off ↦ elim (Bool-cases (ltb timeout (since i))) [
      | inl late ↦
          (i, rw (off, late), record { reason = inr (off, ground arith); inactive = b; bound = k })
      | inr early ↦
          let soon : since i ≤ timeout = ground arith in
          let next : i + 1 ≡ suc i = omega arith in
          let (r, e, t) =
            block_for_socket-from fuel (i + 1) s (omega arith) (omega (arith, s i))
              (rw next (off, b)) in
          (r, rw (off, early) e, t)
    ]
  ]

  -- If each sleep lasts a microsecond at least, `BlockForSocket` returns, with fuel for one round more
  -- than there are microseconds in the timeout: in the first round in which the socket is active, or
  -- in one after whose sleep the timeout has passed and before which it was not active.
  pub block_for_socket-IsReturn :
      (fuel : ℕ)
      → ((k : ℕ) → (k + 1) * microsecond ≤ since k)
      → timeout < fuel * microsecond
      → (r : ℕ) × (block_for_socket fuel active since timeout 0 ≡ some r)
        × IsReturn active since timeout r
  block_for_socket-IsReturn fuel s h = block_for_socket-from fuel 0 s (omega arith) (omega arith) tt
