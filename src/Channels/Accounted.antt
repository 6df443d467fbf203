-- ===== src/Channels/Accounted.antt =====
-- Nothing is lost between the connections and the relay goroutines, and the channels keep the order.
use statsgod.Channels.Cut.{
  new_relays-IsCut, flush_map-IsCut, new_relays, received-IsCut, IsCut, nothing_each,
}
use mathlib.Core.Path.{subst}
use statsgod.Prelude.Outcome.{done}
use statsgod.Channels.{flush_map, act, Action, run_schedule, max_reqs, Channels}
use statsgod.Ingest.{handle_message}
use statsgod.Prelude.{
  zero, append-nil, suc, length-append, refl, inr, arith, inl, append_assoc, ◌≤◌, sym, Option-cases,
  length, ◌∙◌, some, map, ap, ◌≡◌, [], ℕ, ◌∷◌, ◌++◌, List, Bytes,
}
use statsgod.Channels.Dealt.{
  update_at-same, update_at-Pairwise, Pairwise, Takes, nothing, one, IsMerge, Takes-append,
  IsMerge-add_at, update_at-same,
}
use statsgod.Channels.Acted.{
  map_flushed, Acted, act-Acted, message_sent, message_parsed, metric_pushed, metric_received,
}
use mathlib.Core.Option.{some-injective}
use statsgod.Float.{Float64}
use statsgod.Auth.{Auth}
use statsgod.Metric.{Metric}
use statsgod.Metric.Aggregate.{aggregate_metric}

nothing_each-empty {ℓ} :
    {A : Type ℓ} (n : ℕ) → nothing_each {A = A} n ≡ map (λ xs. []) (nothing_each {A = A} n)
nothing_each-empty zero = refl
nothing_each-empty (suc n) = ap (λ xss. [] ∷ xss) (nothing_each-empty n)

module _ {F : Type 0} ⦃f : Float64 F⦄ (auth : Auth) where
  -- What the parse loop pushes for one message, and for several.
  abbrev pub pushed_by : Bytes → List (Metric F)
  pushed_by m = elim (handle_message auth m) [ done pushed ↦ pushed | _ ↦ [] ]

  abbrev pub pushed_for : List Bytes → List (Metric F)
  pushed_for [] = []
  pushed_for (m ∷ ms) = pushed_by m ++ pushed_for ms

  pub pushed_by-done :
      (m : Bytes) (pushed : List (Metric F))
      → handle_message auth m ≡ done pushed
      → pushed_by m ≡ pushed
  pushed_by-done m pushed e = rw (e, pushed_by) refl

  pushed_for-append : (ms ns : List Bytes) → pushed_for (ms ++ ns) ≡ pushed_for ms ++ pushed_for ns
  pushed_for-append [] ns = refl
  pushed_for-append (m ∷ ms) ns =
      ap (λ ps. pushed_by m ++ ps) (pushed_for-append ms ns)
      ∙ sym (append_assoc (pushed_by m) (pushed_for ms) (pushed_for ns))

  -- The connections have sent some messages, each of them its own in order. What the parse loop makes of
  -- them has been taken by the relay goroutines, or is in the relay channel, about to be pushed, or still to
  -- be parsed, in this order. The relay goroutines have shared what was taken, each in order, and each has aggregated and flushed its share.
  pub record IsAccounted (clients : List (List Bytes)) (s : Channels F) : Type 0 where
    pub sent : List Bytes
    pub taken : List (Metric F)
    pub shares : List (List (Metric F))
    pub sends_in_order : Takes clients sent s.clients
    pub parsed_in_order :
        pushed_for sent ≡ taken ++ s.relay_channel ++ s.parsing ++ pushed_for s.parse_channel
    pub shared : IsMerge shares taken
    pub cut : Pairwise IsCut shares s.relays
    pub parse_bound : length s.parse_channel ≤ max_reqs
    pub relay_bound : length s.relay_channel ≤ max_reqs

  module _ (clients : List (List Bytes)) where
    act-IsAccounted :
        (s t : Channels F)
        → (e : Action) → IsAccounted clients s
        → Acted auth s t e
        → IsAccounted clients t
    act-IsAccounted s t b a (message_sent i m rest took room e) =
        subst (IsAccounted clients) (sym e) (record {
          sent = a.sent ++ m ∷ [];
          taken = a.taken;
          shares = a.shares;
          sends_in_order = Takes-append a.sends_in_order (one i took nothing);
          parsed_in_order = simp (pushed_for-append, a.parsed_in_order, append_assoc);
          shared = a.shared;
          cut = a.cut;
          parse_bound = omega (arith, length-append s.parse_channel (m ∷ []));
          relay_bound = a.relay_bound;
        })
    act-IsAccounted s t b a (message_parsed m rest pushed idle e handled few end) =
        subst (IsAccounted clients) (sym end) (record {
          sent = a.sent;
          taken = a.taken;
          shares = a.shares;
          sends_in_order = a.sends_in_order;
          parsed_in_order =
              a.parsed_in_order
              ∙ simp (idle, e, append-nil, append_assoc, pushed_by-done m pushed handled);
          shared = a.shared;
          cut = a.cut;
          parse_bound = let l = ap length e in omega (arith, a.parse_bound);
          relay_bound = a.relay_bound;
        })
    act-IsAccounted s t b a (metric_pushed metric rest e room end) =
        subst (IsAccounted clients) (sym end) (record {
          sent = a.sent;
          taken = a.taken;
          shares = a.shares;
          sends_in_order = a.sends_in_order;
          parsed_in_order = a.parsed_in_order ∙ simp (e, append_assoc);
          shared = a.shared;
          cut = a.cut;
          parse_bound = a.parse_bound;
          relay_bound = omega (arith, length-append s.relay_channel (metric ∷ []));
        })
    act-IsAccounted s t b a (metric_received j metric rest relays e updated end) =
        let (shares, added, cut) =
          update_at-Pairwise j (λ ms. ms ++ metric ∷ [])
            (λ r. record r { metrics = aggregate_metric r.metrics metric }) (received-IsCut metric)
            a.cut updated in
        subst (IsAccounted clients) (sym end) (record {
          sent = a.sent;
          taken = a.taken ++ metric ∷ [];
          shares = shares;
          sends_in_order = a.sends_in_order;
          parsed_in_order = a.parsed_in_order ∙ simp (e, append_assoc);
          shared = IsMerge-add_at j metric a.shares shares a.taken a.shared added;
          cut = cut;
          parse_bound = a.parse_bound;
          relay_bound = let l = ap length e in omega (arith, a.relay_bound);
        })
    act-IsAccounted s t b a (map_flushed j config tick relays updated end) =
        let (shares, same, cut) =
          update_at-Pairwise j (λ ms. ms) (flush_map config tick) (flush_map-IsCut config tick)
            a.cut updated in
        subst (IsAccounted clients) (sym end) (record {
          sent = a.sent;
          taken = a.taken;
          shares = a.shares;
          sends_in_order = a.sends_in_order;
          parsed_in_order = a.parsed_in_order;
          shared = a.shared;
          cut =
              subst (λ xss. Pairwise IsCut xss relays) (update_at-same j a.shares shares same) cut;
          parse_bound = a.parse_bound;
          relay_bound = a.relay_bound;
        })

  -- The connections with their messages, and some relay goroutines.
  abbrev pub fresh : List (List Bytes) → ℕ → Channels F
  fresh clients relays = record {
    clients = clients;
    parse_channel = [];
    parsing = [];
    relay_channel = [];
    relays = new_relays relays;
  }

  fresh-IsAccounted :
      (clients : List (List Bytes)) (relays : ℕ) → IsAccounted clients (fresh clients relays)
  fresh-IsAccounted clients relays = record {
    sent = [];
    taken = [];
    shares = nothing_each relays;
    sends_in_order = nothing;
    parsed_in_order = refl;
    shared = subst (λ xss. Takes (nothing_each relays) [] xss) (nothing_each-empty relays) nothing;
    cut = new_relays-IsCut relays;
    parse_bound = omega arith;
    relay_bound = omega arith;
  }

  run_schedule-IsAccounted :
      (clients : List (List Bytes)) (schedule : List Action) (s t : Channels F)
      → IsAccounted clients s
      → run_schedule auth schedule s ≡ some t
      → IsAccounted clients t
  unfolding run_schedule
  run_schedule-IsAccounted clients [] s t a h = subst (IsAccounted clients) (some-injective _ _ h) a
  run_schedule-IsAccounted clients (e ∷ schedule) s t a h = elim (Option-cases (act auth e s)) [
    | inl waits ↦ absurd (ground (arith, (rw (waits, run_schedule) at h)))
    | inr (u, acts) ↦
        run_schedule-IsAccounted clients schedule u t
          (act-IsAccounted clients s u e a (act-Acted auth s u e acts))
          (rw (acts, run_schedule) at h)
  ]

  -- Whatever the connections, the parse loop and the relay goroutines do, in any order: the metrics of the
  -- messages sent so far are those received by the relay goroutines, in the relay channel, about to be
  -- pushed and still to be parsed, in this order, with each connection's messages in their order. Each
  -- received metric came to one relay goroutine, which has aggregated it in the map of one flush, or in the
  -- one that it still holds.
  -- Neither channel holds more than its capacity.
  pub run_fresh-IsAccounted :
      (clients : List (List Bytes)) (relays : ℕ) (schedule : List Action) (t : Channels F)
      → run_schedule auth schedule (fresh clients relays) ≡ some t
      → IsAccounted clients t
  run_fresh-IsAccounted clients relays schedule t =
      run_schedule-IsAccounted clients schedule _ t (fresh-IsAccounted clients relays)
