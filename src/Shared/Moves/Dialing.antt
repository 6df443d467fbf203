-- ===== src/Shared/Moves/Dialing.antt =====
-- The steps of a goroutine in `CreateConnection`.
use statsgod.Shared.Moves.{IsMoved, carried}
use statsgod.Shared.Hands.{copies-append, made-next, copies, has, hands, failures-next}
use statsgod.Pool.{send_conn, dial, ◌>>=◌, World, Network}
use statsgod.Prelude.{
  inr, length-append, inl, true, Bool-cases, refl, arith, [], ◌+◌, ◌≡◌, ◌∷◌, Bytes, ◌++◌, ℕ,
}
use statsgod.Shared.{failing, counting, dialing, checking, idle, adding, step}
use statsgod.Prelude.{ltb, length}
use statsgod.Pool.Accounts.{IsDialable, Balances}
use statsgod.Shared.Places.{holds, rank}

module _ (net : Network) (payload : Bytes) (size conn_type others : ℕ) (w : World) where
  pub step-checking :
      Balances (holds checking + others) size conn_type w
      → IsMoved net payload size conn_type others checking w
  unfolding holds rank has hands step
  step-checking b =
      let free : ltb (length w.connections) w.size ≡ true = ground arith in
      let known : IsDialable w.conn_type = rw b.type_is b.dialable in
      record {
        pc = dialing;
        after = w;
        steps = rw (free, known, step) refl;
        kept = carried b (b.places) refl refl;
        times_out = λ t. absurd (ground arith);
        errors = omega arith;
        counted = λ other. refl;
        current = λ n h. absurd (ground arith);
        sized = refl;
        typed = refl;
        owned = λ k. ground arith;
        spent = ground arith;
        nearer = inr (omega arith);
      }

  pub step-dialing :
      Balances (holds dialing + others) size conn_type w
      → IsMoved net payload size conn_type others dialing w
  unfolding holds rank has hands step dial
  step-dialing b = elim (Bool-cases (net.dial_ok w.dials)) [
    | inl ok ↦ record {
      pc = adding w.dials;
      after = record w { dials = w.dials + 1 };
      steps = rw (ok, step, ◌>>=◌, dial) refl;
      kept = carried b (b.places) refl refl;
      times_out = λ t. absurd (ground arith);
      errors = omega arith;
      counted = λ other. refl;
      current = λ n h. absurd (ground arith);
      sized = refl;
      typed = refl;
      owned = λ k. ground (arith, made-next net w.dials k);
      spent = ground (arith, failures-next net w.dials);
      nearer = inr (omega arith);
    }
    | inr failed ↦ record {
      pc = failing;
      after = record w { dials = w.dials + 1 };
      steps = rw (failed, step, ◌>>=◌, dial) refl;
      kept = carried b (b.places) refl refl;
      times_out = λ t. absurd (ground arith);
      errors = omega arith;
      counted = λ other. refl;
      current = λ n h. absurd (ground arith);
      sized = refl;
      typed = refl;
      owned = λ k. ground (arith, made-next net w.dials k);
      spent = ground (arith, failures-next net w.dials);
      nearer = inr (omega arith);
    }
  ]

  pub step-failing :
      Balances (holds failing + others) size conn_type w
      → IsMoved net payload size conn_type others failing w
  unfolding holds rank has hands step
  step-failing b = record {
    pc = counting w.error_count;
    after = w;
    steps = refl;
    kept = carried b (b.places) refl refl;
    times_out = λ t. absurd (ground arith);
    errors = omega arith;
    counted = λ other. refl;
    current = λ n h. ground arith;
    sized = refl;
    typed = refl;
    owned = λ k. ground arith;
    spent = ground arith;
    nearer = inr (omega arith);
  }

  pub step-counting :
      (n : ℕ)
      → n ≡ w.error_count
      → Balances (holds (counting n) + others) size conn_type w
      → IsMoved net payload size conn_type others (counting n) w
  unfolding holds rank has hands step
  step-counting n e b = record {
    pc = idle;
    after = record w { pool = record w.pool { error_count = n + 1 } };
    steps = refl;
    kept = carried b (omega (arith, b.places)) refl refl;
    times_out = λ t. absurd (ground arith);
    errors = omega arith;
    counted = λ other. absurd (other n refl);
    current = λ m h. absurd (ground arith);
    sized = refl;
    typed = refl;
    owned = λ k. ground arith;
    spent = ground arith;
    nearer = inr (omega arith);
  }

  pub step-adding :
      (c : ℕ)
      → Balances (holds (adding c) + others) size conn_type w
      → IsMoved net payload size conn_type others (adding c) w
  unfolding holds rank has hands step send_conn copies
  step-adding c b =
      let free : ltb (length w.connections) w.size ≡ true = ground arith in
      record {
        pc = idle;
        after = record w { pool = record w.pool { connections = w.connections ++ c ∷ [] } };
        steps = rw (free, step, ◌>>=◌, send_conn) refl;
        kept = carried b (ground (arith, length-append w.connections (c ∷ []))) refl refl;
        times_out = λ t. absurd (ground arith);
        errors = omega arith;
        counted = λ other. refl;
        current = λ n h. absurd (ground arith);
        sized = refl;
        typed = refl;
        owned = λ k. ground (arith, copies-append k w.connections (c ∷ []));
        spent = ground (arith, length-append w.connections (c ∷ []));
        nearer = inr (omega arith);
      }
