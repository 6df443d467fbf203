-- ===== src/Shared/Moves/Sending.antt =====
-- The steps of a goroutine from `GetConnection` to the end of its write.
use statsgod.Shared.Moves.{IsMoved, carried}
use statsgod.Shared.Hands.{copies-append, copies, has, hands}
use statsgod.Pool.{close_conn, ◌>>=◌, get_connection, World, Network}
use statsgod.Prelude.{
  inr, length-append, inl, Bool-cases, refl, arith, [], ◌+◌, ◌≡◌, ◌∷◌, Bytes, ◌++◌, ℕ, List,
}
use statsgod.Shared.{checking, idle, timed_out, closing, releasing, step, writing}
use statsgod.Pool.Release.{release-kept}
use statsgod.Carbon.{write_conn}
use statsgod.Pool.Accounts.{Balances}
use statsgod.Shared.Places.{holds, rank}

module _ (net : Network) (payload : Bytes) (size conn_type others : ℕ) (w : World) where
  pub step-idle :
      (xs : List ℕ)
      → w.connections ≡ xs
      → Balances (holds idle + others) size conn_type w
      → IsMoved net payload size conn_type others idle w
  unfolding holds rank has hands step get_connection copies
  step-idle [] e b = record {
    pc = timed_out;
    after = w;
    steps = simp (e, step, ◌>>=◌, get_connection);
    kept = carried b (b.places) refl refl;
    times_out = λ t. (e, refl);
    errors = omega arith;
    counted = λ other. refl;
    current = λ n h. absurd (ground arith);
    sized = refl;
    typed = refl;
    owned = λ k. ground arith;
    spent = ground arith;
    nearer = inl refl;
  }
  step-idle (c ∷ rest) e b = record {
    pc = writing c;
    after = record w { pool = record w.pool { connections = rest } };
    steps = rw (e, step, ◌>>=◌, get_connection) refl;
    kept = carried b (ground arith) refl refl;
    times_out = λ t. absurd (ground arith);
    errors = omega arith;
    counted = λ other. refl;
    current = λ n h. absurd (ground arith);
    sized = refl;
    typed = refl;
    owned = λ k. ground arith;
    spent = ground arith;
    nearer = inl refl;
  }

  pub step-writing :
      (c : ℕ)
      → Balances (holds (writing c) + others) size conn_type w
      → IsMoved net payload size conn_type others (writing c) w
  unfolding holds rank has hands step write_conn
  step-writing c b = elim (Bool-cases (net.write_ok w.writes)) [
    | inl ok ↦ record {
      pc = releasing c;
      after = record w { writes = w.writes + 1; delivered = w.delivered ++ payload ∷ [] };
      steps = rw (ok, step, ◌>>=◌, write_conn) refl;
      kept = carried b (b.places) refl refl;
      times_out = λ t. absurd (ground arith);
      errors = omega arith;
      counted = λ other. refl;
      current = λ n h. absurd (ground arith);
      sized = refl;
      typed = refl;
      owned = λ k. ground arith;
      spent = ground arith;
      nearer = inr (omega arith);
    }
    | inr failed ↦ record {
      pc = closing c;
      after = record w { writes = w.writes + 1 };
      steps = rw (failed, step, ◌>>=◌, write_conn) refl;
      kept = carried b (b.places) refl refl;
      times_out = λ t. absurd (ground arith);
      errors = omega arith;
      counted = λ other. refl;
      current = λ n h. absurd (ground arith);
      sized = refl;
      typed = refl;
      owned = λ k. ground arith;
      spent = ground arith;
      nearer = inr (omega arith);
    }
  ]

  pub step-releasing :
      (c : ℕ)
      → Balances (holds (releasing c) + others) size conn_type w
      → IsMoved net payload size conn_type others (releasing c) w
  unfolding holds rank has hands step copies
  step-releasing c b = record {
    pc = idle;
    after = record w { pool = record w.pool { connections = w.connections ++ c ∷ [] } };
    steps = rw (release-kept net c w (ground arith), step, ◌>>=◌) refl;
    kept = carried b (ground (arith, length-append w.connections (c ∷ []))) refl refl;
    times_out = λ t. absurd (ground arith);
    errors = omega arith;
    counted = λ other. refl;
    current = λ n h. absurd (ground arith);
    sized = refl;
    typed = refl;
    owned = λ k. ground (arith, copies-append k w.connections (c ∷ []));
    spent = ground (arith, length-append w.connections (c ∷ []));
    nearer = inr (omega arith);
  }

  pub step-closing :
      (c : ℕ)
      → Balances (holds (closing c) + others) size conn_type w
      → IsMoved net payload size conn_type others (closing c) w
  unfolding holds rank has hands step close_conn copies
  step-closing c b = record {
    pc = checking;
    after = record w { closed = w.closed ++ c ∷ [] };
    steps = refl;
    kept = carried b (b.places) refl refl;
    times_out = λ t. absurd (ground arith);
    errors = omega arith;
    counted = λ other. refl;
    current = λ n h. absurd (ground arith);
    sized = refl;
    typed = refl;
    owned = λ k. ground (arith, copies-append k w.closed (c ∷ []));
    spent = ground arith;
    nearer = inr (omega arith);
  }
