-- ===== src/Metric/Parse/Bounds.antt =====
-- The loop of `ParseMetricString`: it never leaves its arrays.
use native.Mathlib.Numerals.{add-one}
use statsgod.Prelude.{
  get_elem?-set_self, length-set, ◌≢◌, ℕ, zero, suc, ◌+◌, ◌<◌, ◌≤◌, ◌≡◌, refl, List, [], ◌∷◌, ◌++◌,
  Bool, true, false, some, arith, ltb, ◌==◌, Bool-cases, inl, inr, length, length-append, get_elem?,
  set, All,
}
use statsgod.Prelude.Outcome.{Outcome, done}
use statsgod.Metric.{maximum_metric_length}
use statsgod.Metric.Parse.{
  unless_full, delimeters, Scan, scan, scan_rune, is_delimeter, store, is_skipped, initial_scan,
}

-- No row is longer than its array.
abbrev pub Fits : List (List ℕ) → Type 0
Fits = All λ row. length row ≤ maximum_metric_length

-- The row at an index and those behind it have room for one more rune.
abbrev RoomFrom : List (List ℕ) → ℕ → Type 0
RoomFrom [] i = Unit
RoomFrom (row ∷ rows) zero = (length row < maximum_metric_length) × RoomFrom rows zero
RoomFrom (row ∷ rows) (suc i) = RoomFrom rows i

-- Every index that the loop computes lies in its array, and no row overflows.
pub record IsSafe (s : Scan) : Type 0 where
  pub rows_five : length s.metric_strings ≡ 5
  pub below : s.metric_count < 5
  pub fits : Fits s.metric_strings

-- Before each rune the row that may be written has room.
pub record IsReady (s : Scan) : Type 0 where
  pub safe : IsSafe s
  pub in_step : s.delimeter_count ≡ s.metric_count
  pub room : RoomFrom s.metric_strings s.metric_count

pub initial-IsReady : IsReady initial_scan
initial-IsReady = ground arith

RoomFrom-row :
    (rows : List (List ℕ)) (i : ℕ)
    → RoomFrom rows i
    → i < length rows
    → (row : List ℕ) × (get_elem? rows i ≡ some row) × (length row < maximum_metric_length)
RoomFrom-row [] i r h = absurd (omega arith)
RoomFrom-row (row ∷ rows) zero r h = (row, refl, r.0)
RoomFrom-row (row ∷ rows) (suc i) r h = RoomFrom-row rows i r (omega arith)

RoomFrom-suc : (rows : List (List ℕ)) (i : ℕ) → RoomFrom rows i → RoomFrom rows (suc i)
RoomFrom-suc [] i r = tt
RoomFrom-suc (row ∷ rows) zero r = r.1
RoomFrom-suc (row ∷ rows) (suc i) r = RoomFrom-suc rows i r

RoomFrom-set :
    (rows : List (List ℕ)) (i : ℕ) (v : List ℕ)
    → RoomFrom rows i
    → length v < maximum_metric_length
    → RoomFrom (set rows i v) i
RoomFrom-set [] i v r h = tt
RoomFrom-set (row ∷ rows) zero v r h = (h, r.1)
RoomFrom-set (row ∷ rows) (suc i) v r h = RoomFrom-set rows i v r h

Fits-set :
    (rows : List (List ℕ)) (i : ℕ) (v : List ℕ)
    → Fits rows
    → length v ≤ maximum_metric_length
    → Fits (set rows i v)
Fits-set [] i v r h = tt
Fits-set (row ∷ rows) zero v r h = (h, r.1)
Fits-set (row ∷ rows) (suc i) v r h = (r.0, Fits-set rows i v r.1 h)

pub delimeter_at : (i : ℕ) → i < 4 → (d : ℕ) × (get_elem? delimeters i ≡ some d)
delimeter_at zero h = (58, refl)
delimeter_at (suc zero) h = (124, refl)
delimeter_at (suc (suc zero)) h = (124, refl)
delimeter_at (suc (suc (suc zero))) h = (64, refl)
delimeter_at (suc (suc (suc (suc i)))) h = absurd (omega arith)

is_delimeter-done :
    (s : Scan) (ch : ℕ)
    → IsReady s
    → (found : Bool) × (is_delimeter s ch ≡ done found) × (found ≡ true → s.metric_count < 4)
unfolding is_delimeter
is_delimeter-done s ch r = elim (Bool-cases (ltb s.delimeter_count 4)) [
  | inl low ↦
      let (d, e) = delimeter_at s.delimeter_count (ground arith) in
      (ch == d, ground (arith, r.safe), ground (arith, r.safe))
  | inr high ↦ (false, ground arith, ground arith)
]

abbrev Steps : Scan → Outcome Scan → Type 0
Steps s o =
    (t : Scan) × (row : List ℕ) × (o ≡ done t)
    × (get_elem? t.metric_strings t.metric_count ≡ some row)
    × IsSafe t
    × (length row ≢ maximum_metric_length → IsReady t)

store-Steps : (s : Scan) (ch : ℕ) → IsReady s → Steps s (store s ch)
unfolding store
store-Steps s ch r =
    let rows : List (List ℕ) = s.metric_strings in
    let i : ℕ = s.metric_count in
    let (row, e, h) = RoomFrom-row rows i r.room (omega arith) in
    let longer : List ℕ = row ++ ch ∷ [] in
    let grown : length longer ≡ suc (length row) = omega (arith, length-append row (ch ∷ [])) in
    let t : Scan = record s { metric_strings = set rows i longer } in
    let safe : IsSafe t = record {
      rows_five = omega (arith, length-set rows i longer);
      below = r.safe.below;
      fits = Fits-set rows i longer r.safe.fits (omega arith);
    } in
    (
      t,
      longer,
      ground arith,
      get_elem?-set_self rows i longer (omega arith),
      safe,
      λ ne. record {
        safe = safe;
        in_step = r.in_step;
        room = RoomFrom-set rows i longer r.room (ground arith);
      },
    )

next_row-Steps :
    (s : Scan)
    → IsReady s
    → s.metric_count < 4
    → Steps s (
        done
          (record s { delimeter_count = s.delimeter_count + 1; metric_count = s.metric_count + 1 }))
next_row-Steps s r h =
    let t : Scan = record s {
      delimeter_count = s.delimeter_count + 1;
      metric_count = s.metric_count + 1;
    } in
    let room : RoomFrom s.metric_strings (s.metric_count + 1) =
      rw add-one (RoomFrom-suc s.metric_strings s.metric_count r.room) in
    let (row, e, short) = RoomFrom-row s.metric_strings (s.metric_count + 1) room (omega arith) in
    let safe : IsSafe t = record {
      rows_five = r.safe.rows_five;
      below = omega arith;
      fits = r.safe.fits;
    } in
    (t, row, refl, e, safe, λ ne. record { safe = safe; in_step = omega arith; room = room })

scan_rune-Steps : (s : Scan) (ch : ℕ) → IsReady s → Steps s (scan_rune s ch)
unfolding scan_rune
scan_rune-Steps s ch r =
    let (found, e, low) = is_delimeter-done s ch r in
    elim (Bool-cases found) [
      | inl h ↦ rw (e, scan_rune) (rw h (next_row-Steps s r (low h)))
      | inr h ↦ rw (e, scan_rune) (rw h (store-Steps s ch r))
    ]

-- Scanning any runes from a ready state returns, with every index in range.
pub scan-IsSafe :
    (s : Scan) (runes : List ℕ) → IsReady s → (t : Scan) × (scan s runes ≡ done t) × IsSafe t
unfolding scan unless_full
scan-IsSafe s [] r = (s, refl, r.safe)
scan-IsSafe s (ch ∷ rest) r = elim (Bool-cases (is_skipped ch)) [
  | inl skip ↦ let (t, e, safe) = scan-IsSafe s rest r in (t, ground arith, safe)
  | inr keep ↦
      let (t, row, e, at, safe, ready) = scan_rune-Steps s ch r in
      elim (Bool-cases (length row == maximum_metric_length)) [
        | inl full ↦ (t, ground arith, safe)
        | inr open_row ↦
            let (u, e', safe') = scan-IsSafe t rest (ready (ground arith)) in
            (u, ground arith, safe')
      ]
]
