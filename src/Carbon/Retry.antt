-- ===== src/Carbon/Retry.antt =====
-- `sendCarbonMetric` with its retry: what is delivered, and when the process dies.
use statsgod.Carbon.Send.{try_send-failed, try_send-written, after_write, try_send-empty}
use statsgod.Pool.Accounts.{Balances}
use statsgod.Prelude.Outcome.{panics, done, Outcome}
use statsgod.Carbon.{try_send, send_payload}
use statsgod.Pool.{◌>>=◌, nil_conn_panic_msg, World, Network}
use statsgod.Prelude.{
  ◌∙◌, length-append, Bool-cases, arith, inl, [], length, ◌+◌, ◌∷◌, false, ◌++◌, inr, ◌⊎◌, ◌≡◌,
  List, Bool, Bytes, ℕ, true, refl,
}

module _ (net : Network) (size conn_type : ℕ) where
  pub kept_after :
      (payload : Bytes) (w : World) (c : ℕ) (rest : List ℕ)
      → w.connections ≡ c ∷ rest
      → Balances 0 size conn_type w
      → Balances 0 size conn_type (after_write net payload w c rest)
  unfolding after_write
  kept_after payload w c rest e b = record {
    places = ground (arith, length-append rest (c ∷ []));
    size_is = b.size_is;
    type_is = b.type_is;
    dialable = b.dialable;
  }

  -- One write succeeded, and nothing but this payload was delivered.
  pub record IsSent (payload : Bytes) (w v : World) (r : Outcome (Bool × World)) : Type 0 where
    pub result : r ≡ done (true, v)
    pub once : v.delivered ≡ w.delivered ++ payload ∷ []
    pub kept : Balances 0 size conn_type v
    pub wrote : (net.write_ok w.writes ≡ true) ⊎ (net.write_ok (w.writes + 1) ≡ true)

  -- Both writes failed, and nothing was delivered.
  pub record IsLost (w v : World) (r : Outcome (Bool × World)) : Type 0 where
    pub result : r ≡ done (false, v)
    pub nothing : v.delivered ≡ w.delivered
    pub kept : Balances 0 size conn_type v
    pub first : net.write_ok w.writes ≡ false
    pub second : net.write_ok (w.writes + 1) ≡ false

  -- There was no connection, or the only one broke and could not be dialed again.
  pub record IsDead (w : World) (r : Outcome (Bool × World)) : Type 0 where
    pub result : r ≡ panics nil_conn_panic_msg
    pub cause :
        (length w.connections ≡ 0)
        ⊎ ((length w.connections ≡ 1)
            × (net.write_ok w.writes ≡ false)
            × (net.dial_ok w.dials ≡ false))

  abbrev pub SendResult : Bytes → World → Outcome (Bool × World) → Type 0
  SendResult payload w r =
      ((v : World) × IsSent payload w v r) ⊎ ((v : World) × IsLost w v r) ⊎ IsDead w r

  module _ (payload : Bytes) (w : World) where
    second_try :
        (v : World) (xs : List ℕ)
        → v.connections ≡ xs
        → Balances 0 size conn_type v
        → v.delivered ≡ w.delivered
        → v.writes ≡ w.writes + 1
        → net.write_ok w.writes ≡ false
        → (length xs ≡ 0 → (length w.connections ≡ 1) × (net.dial_ok w.dials ≡ false))
        → SendResult payload w (try_send net payload v)
    second_try v [] e b lines sent failed last = inr (
        inr (record {
          result = try_send-empty net payload v e;
          cause = inr ((last refl).0, failed, (last refl).1);
        }))
    second_try v (c ∷ rest) e b lines sent failed last = elim (Bool-cases (net.write_ok v.writes)) [
      | inl ok ↦ inl (
        after_write net payload v c rest,
        record {
          result = try_send-written net payload v c rest e (omega (arith, b.places, b.size_is)) ok;
          once = unfold after_write in rw lines;
          kept = unfold after_write in kept_after payload v c rest e b;
          wrote = inr (rw sent at ok);
        },
      )
      | inr again ↦
          let (u, r, b', lines', sent', left) =
            try_send-failed net payload v c size conn_type rest b e again in
          inr (
            inl (
              u,
              record {
                result = r;
                nothing = lines' ∙ lines;
                kept = b';
                first = failed;
                second = rw sent at again;
              },
            ))
    ]

    -- With the retry, sending a payload from a pool that keeps account of its connections ends in one of
    -- three ways: the payload was delivered once and nothing else was; both writes failed and nothing
    -- was delivered; or the process panics, and then the pool was empty, or its only connection broke
    -- and could not be dialed again. The pool keeps its account in the first two.
    pub send_payload-SendResult :
        Balances 0 size conn_type w → SendResult payload w (send_payload net payload true w)
    unfolding send_payload
    send_payload-SendResult b = first_try w.connections refl b
      where
        first_try :
            (xs : List ℕ)
            → w.connections ≡ xs
            → Balances 0 size conn_type w
            → SendResult payload w (send_payload net payload true w)
        first_try [] e b = inr (
            inr (record {
              result = rw (try_send-empty net payload w e, ◌>>=◌);
              cause = inl (ground arith);
            }))
        first_try (c ∷ rest) e b = elim (Bool-cases (net.write_ok w.writes)) [
          | inl ok ↦ inl (
            after_write net payload w c rest,
            record {
              result = rw (
                try_send-written net payload w c rest e (omega (arith, b.places, b.size_is)) ok,
                ◌>>=◌,
              );
              once = unfold after_write in refl;
              kept = unfold after_write in kept_after payload w c rest e b;
              wrote = inl ok;
            },
          )
          | inr failed ↦
              let (v, r, b', lines, sent, left) =
                try_send-failed net payload w c size conn_type rest b e failed in
              rw (r, ◌>>=◌)
                (second_try v v.connections refl b' lines sent failed (λ none_left. ground arith))
        ]
