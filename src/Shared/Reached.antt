-- ===== src/Shared/Reached.antt =====
-- What holds of every system that the goroutines can reach.
use statsgod.Prelude.Outcome.{done}
use statsgod.Pool.Accounts.{Balances}
use statsgod.Shared.{step, here, run, next, Pc, Reach, System}
use statsgod.Prelude.{
  All-append, All-left, All-map, length, ◌-◌, Bytes, All, sym, ◌∙◌, ap, arith, [], ◌≡◌, ◌++◌, ◌∷◌,
  ◌+◌, List, ℕ,
}
use statsgod.Pool.{World, Network}
use mathlib.Core.Path.{subst}
use statsgod.Shared.Places.{IsBounded, holds, total_holds, total_holds-place, Balances-lent}
use statsgod.Shared.Hands.{hands, failures, copies, has, made}
use statsgod.Shared.Kept.{IsKept, step-IsKept}

-- The connections in the channel, the places in the hands of the goroutines and the failed dials that are
-- counted are not more than the places of the pool, and as many as long as no failed dial is counted.
-- Places go missing when a goroutine overwrites the count of another.
pub record IsShared (size conn_type : ℕ) (s : System) : Type 0 where
  pub lost : ℕ
  pub balanced : Balances (total_holds s.threads + lost) size conn_type s.world
  pub exact : s.world.error_count ≡ 0 → lost ≡ 0
  pub reads : All (IsBounded size (total_holds s.threads) s.world) s.threads

-- A goroutine in the middle of the others, on a pool that keeps account.
pub record IsPlaced (size conn_type others : ℕ) (p : Pc) (w : World) : Type 0 where
  pub lost : ℕ
  pub balanced : Balances (holds p + (others + lost)) size conn_type w
  pub exact : w.error_count ≡ 0 → lost ≡ 0
  pub bounded : IsBounded size (holds p + others) w p

module _ (net : Network) (size conn_type : ℕ) where
  pub IsShared-place :
      (t : System) (before after : List Pc) (p : Pc)
      → t.threads ≡ before ++ p ∷ after
      → IsShared size conn_type t
      → IsPlaced size conn_type (total_holds (before ++ after)) p t.world
  IsShared-place t before after p at i =
      let held : total_holds t.threads ≡ holds p + total_holds (before ++ after) =
        ap total_holds at ∙ total_holds-place before after p in
      let (first, reads_after) =
        All-left _ before (p ∷ after)
          (subst (All (IsBounded size (total_holds t.threads) t.world)) at i.reads) in
      record {
        lost = i.lost;
        balanced = Balances-lent (omega (arith, held)) i.balanced;
        exact = i.exact;
        bounded = subst (λ h. IsBounded size h t.world p) held reads_after.0;
      }

  IsBounded-kept :
      (others : ℕ) (p q r : Pc) (w v : World)
      → IsKept net size others p q w v
      → IsBounded size (holds p + others) w r
      → IsBounded size (holds q + others) v r
  IsBounded-kept others p q r w v k b n e =
      let (room, none_read) = b n e in
      let less = k.fewer in (omega arith, λ none. none_read (k.errors none))

  IsShared-step :
      (payload : Bytes) (t : System) (before after : List Pc) (p q : Pc) (v : World)
      → t.threads ≡ before ++ p ∷ after
      → step net payload p t.world ≡ done (q, v)
      → IsShared size conn_type t
      → IsShared size conn_type (record { world = v; threads = before ++ q ∷ after })
  IsShared-step payload t before after p q v at made i =
      let w : World = t.world in
      let others : ℕ = total_holds (before ++ after) in
      let placed = IsShared-place t before after p at i in
      let k =
        step-IsKept net payload size conn_type others placed.lost w p q v placed.balanced
          placed.bounded made in
      let was : total_holds t.threads ≡ holds p + others =
        ap total_holds at ∙ total_holds-place before after p in
      let held : total_holds (before ++ q ∷ after) ≡ holds q + others =
        total_holds-place before after q in
      let rest : ℕ = size - (length v.connections + v.error_count + holds q + others) in
      let reads =
        All-map _ (IsBounded size (holds q + others) v) t.threads
          (λ r b. IsBounded-kept others p q r w v k (subst (λ h. IsBounded size h w r) was b))
          i.reads in
      let (first, reads_after) =
        All-left _ before (p ∷ after)
          (subst (All (IsBounded size (holds q + others) v)) at reads) in
      let bound = k.bound in
      record {
        lost = rest;
        balanced = record {
          places = omega (arith, held);
          size_is = k.sized ∙ placed.balanced.size_is;
          type_is = k.typed ∙ placed.balanced.type_is;
          dialable = placed.balanced.dialable;
        };
        exact = λ none.
            let same = k.exact none in
            let nothing_lost = placed.exact (k.errors none) in
            let places = placed.balanced.places in let none_before = k.errors none in omega arith;
        reads =
            subst (λ h. All (IsBounded size h v) (before ++ q ∷ after)) (sym held)
              (All-append _ before (q ∷ after) first (k.reads, reads_after.1));
      }

  pub Reach-IsShared :
      (s t : System) → Reach net s t → IsShared size conn_type s → IsShared size conn_type t
  Reach-IsShared s t here i = i
  Reach-IsShared s u (next {t} r (run payload before after p q v at made end)) i =
      subst (IsShared size conn_type) (sym end)
        (IsShared-step payload t before after p q v at made (Reach-IsShared s t r i))

abbrev pub total_has : ℕ → List Pc → ℕ
total_has k [] = 0
total_has k (p ∷ threads) = has p k + total_has k threads

total_has-append :
    (k : ℕ) (before threads : List Pc)
    → total_has k (before ++ threads) ≡ total_has k before + total_has k threads
total_has-append k [] threads = omega arith
total_has-append k (p ∷ before) threads = ground (arith, total_has-append k before threads)

total_has-place :
    (k : ℕ) (before after : List Pc) (p : Pc)
    → total_has k (before ++ p ∷ after) ≡ has p k + total_has k (before ++ after)
total_has-place k before after p =
    ground (arith, total_has-append k before (p ∷ after), total_has-append k before after)

-- A connection that a dial has made stands in one place, and only there: in the channel, in the hands
-- of one goroutine, or among the closed ones.
abbrev pub IsOwned : Network → System → ℕ → Type 0
IsOwned net s k =
    copies k s.world.connections + total_has k s.threads + copies k s.world.closed
    ≡ made net s.world.dials k

-- So it stays whatever the goroutines do.
pub Reach-IsOwned :
    (net : Network) (size conn_type : ℕ) (s t : System) (k : ℕ)
    → Reach net s t
    → IsShared size conn_type s
    → IsOwned net s k
    → IsOwned net t k
Reach-IsOwned net size conn_type s t k here i o = o
Reach-IsOwned net size conn_type s u k (next {t} r (run payload before after p q v at moved end)) i
      o =
    let placed =
      IsShared-place net size conn_type t before after p at
        (Reach-IsShared net size conn_type s t r i) in
    let kept =
      step-IsKept net payload size conn_type (total_holds (before ++ after)) placed.lost t.world p q
        v placed.balanced placed.bounded moved in
    let before_step = Reach-IsOwned net size conn_type s t k r i o in
    let was = ap (total_has k) at ∙ total_has-place k before after p in
    subst (λ x. IsOwned net x k) (sym end)
      (omega (arith, kept.owned k, total_has-place k before after q, was, before_step))

abbrev pub total_hands : List Pc → ℕ
total_hands [] = 0
total_hands (p ∷ threads) = hands p + total_hands threads

total_hands-append :
    (before threads : List Pc)
    → total_hands (before ++ threads) ≡ total_hands before + total_hands threads
total_hands-append [] threads = omega arith
total_hands-append (p ∷ before) threads = ground (arith, total_hands-append before threads)

total_hands-place :
    (before after : List Pc) (p : Pc)
    → total_hands (before ++ p ∷ after) ≡ hands p + total_hands (before ++ after)
total_hands-place before after p =
    ground (arith, total_hands-append before (p ∷ after), total_hands-append before after)

-- So many places: each holds a connection, is in the hands of one goroutine, or is lost to a failed dial.
abbrev pub IsFilled : Network → ℕ → System → Type 0
IsFilled net places s =
    length s.world.connections + total_hands s.threads + failures net s.world.dials ≡ places

-- Whatever the goroutines send and whichever of them runs at each step, they keep two accounts. The
-- connections in the channel, the places in their hands and the dials that have failed stay as many together.
-- The connections, the places in their hands or whose loss is not yet counted, and the counted
-- failures are not more than the places of the pool, and exactly as many as long as none is counted; and
-- a goroutine that is about to write the count has read one that leaves room for its own failure.
pub Reach-IsFilled :
    (net : Network) (size conn_type places : ℕ) (s t : System)
    → Reach net s t
    → IsShared size conn_type s
    → IsFilled net places s
    → IsFilled net places t × IsShared size conn_type t
Reach-IsFilled net size conn_type places s t here i f = (f, i)
Reach-IsFilled net size conn_type places s u
      (next {t} r (run payload before after p q v at moved end)) i f =
    let (filled, shared) = Reach-IsFilled net size conn_type places s t r i f in
    let placed = IsShared-place net size conn_type t before after p at shared in
    let kept =
      step-IsKept net payload size conn_type (total_holds (before ++ after)) placed.lost t.world p q
        v placed.balanced placed.bounded moved in
    let was = ap total_hands at ∙ total_hands-place before after p in
    (
      subst (IsFilled net places) (sym end)
          (omega (arith, kept.spent, total_hands-place before after q, was, filled)),
      Reach-IsShared net size conn_type s u (next r (run payload before after p q v at moved end))
          i,
    )
