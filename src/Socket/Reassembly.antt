-- ===== src/Socket/Reassembly.antt =====
-- Messages that are cut by the end of a buffer.
use statsgod.Metric.{new_metric}
use statsgod.Metric.Parse.{parse_metric_string, ParseError}
use statsgod.Float.{Float64}
use statsgod.Socket.{
  minimum_length_message, read_input_udp, read_length, keep_last, read_input, read_round, split,
  messages, split_from,
}
use statsgod.Prelude.{
  ltb, true, refl, some, All-append, ◌∙◌, inr, sym, inl, append-nil, length, arith, append_assoc,
  ap, ◌==◌, ◌<◌, Bool-cases, ◌≡◌, ◌≢◌, [], ◌∷◌, ◌++◌, All, List, Bytes,
}
use statsgod.Prelude.Outcome.{done}

-- All the pieces.
abbrev pub lines : Bytes → List Bytes
lines s = (split s).0 ++ (split s).1 ∷ []

abbrev pub IsLine : Bytes → Type 0
IsLine = All λ c. c ≢ b'\n'

split_from-append :
    (piece s t : Bytes)
    → split_from piece (s ++ t) ≡ (
      (split_from piece s).0 ++ (split_from (split_from piece s).1 t).0,
      (split_from (split_from piece s).1 t).1,
    )
unfolding split_from
split_from-append piece [] t = refl
split_from-append piece (c ∷ s) t = elim (Bool-cases (c == b'\n')) [
  | inl h ↦ rw h (rw (split_from-append [] s t) refl)
  | inr h ↦ rw h (split_from-append (piece ++ c ∷ []) s t)
]

split_from-IsLine : (piece s : Bytes) → IsLine piece → IsLine (split_from piece s).1
unfolding split_from
split_from-IsLine piece [] p = p
split_from-IsLine piece (c ∷ s) p = elim (Bool-cases (c == b'\n')) [
  | inl h ↦ rw h (split_from-IsLine [] s tt)
  | inr h ↦
      rw h
        (split_from-IsLine (piece ++ c ∷ []) s (All-append _ piece (c ∷ []) p (ground arith, tt)))
]

split_from-line :
    (piece line t : Bytes)
    → IsLine line
    → split_from piece (line ++ t) ≡ split_from (piece ++ line) t
unfolding split_from
split_from-line piece [] t l = ap (λ p. split_from p t) (sym (append-nil piece))
split_from-line piece (c ∷ line) t (ne, l) = elim (Bool-cases (c == b'\n')) [
  | inl h ↦ absurd (ground arith)
  | inr h ↦ rw h (
      split_from-line (piece ++ c ∷ []) line t l
      ∙ ap (λ p. split_from p t) (append_assoc piece (c ∷ []) line))
]

-- The lines of a text and of what follows it: the text's lines but the last, which is joined to what
-- follows.
lines-append : (s t : Bytes) → lines (s ++ t) ≡ (split s).0 ++ lines ((split s).1 ++ t)
lines-append s t =
    let last : Bytes = (split s).1 in
    rw (split_from-append [] s t, split_from-line [] last t (split_from-IsLine [] s tt))
      (append_assoc (split s).0 (split_from last t).0 ((split_from last t).1 ∷ []))

lines-line : (line : Bytes) → IsLine line → lines line ≡ line ∷ []
lines-line line l =
    ap lines (sym (append-nil line)) ∙ rw (split_from-line [] line [] l) (unfold split_from in refl)

messages-line : (line : Bytes) → IsLine line → 1 < length line → messages (lines line) ≡ line ∷ []
unfolding messages
messages-line line l long =
    let sent : ltb minimum_length_message (length line) ≡ true = ground arith in
    ap messages (lines-line line l) ∙ rw (sent, messages) refl

messages-append : (xs ys : List Bytes) → messages (xs ++ ys) ≡ messages xs ++ messages ys
unfolding messages
messages-append [] ys = refl
messages-append (x ∷ xs) ys = ground (arith, messages-append xs ys)

abbrev pub join : List Bytes → Bytes
join [] = []
join (b ∷ bufs) = b ++ join bufs

module _ (F : Type 0) ⦃f : Float64 F⦄ where
  -- Every buffer but the last is full and ends in a fragment that does not parse; the last one is
  -- neither full nor empty.
  abbrev pub IsStream : Bytes → List Bytes → Type 0
  IsStream overflow [] = ⊥
  IsStream overflow (buf ∷ []) = (0 < length buf) × (length buf < read_length)
  IsStream overflow (buf ∷ next ∷ bufs) =
      (length buf ≡ read_length)
      × ((e : ParseError) × (parse_metric_string {F = F} (split (overflow ++ buf)).1
            ≡ done (new_metric, some e)))
      × IsStream (split (overflow ++ buf)).1 (next ∷ bufs)

  read_round-last :
      (overflow buf : Bytes)
      → 0 < length buf
      → length buf < read_length
      → read_round F overflow buf ≡ done (messages (lines (overflow ++ buf)), [])
  unfolding read_round
  read_round-last overflow [] p q = absurd (ground arith)
  read_round-last overflow (c ∷ buf) p q = ground arith

  read_round-full :
      (overflow buf : Bytes) (e : ParseError)
      → length buf ≡ read_length
      → parse_metric_string {F = F} (split (overflow ++ buf)).1 ≡ done (new_metric, some e)
      → read_round F overflow buf
        ≡ done (messages (split (overflow ++ buf)).0, (split (overflow ++ buf)).1)
  unfolding read_round keep_last
  read_round-full overflow [] e p h = absurd (ground arith)
  read_round-full overflow (c ∷ buf) e p h =
      ground (arith, append-nil (split (overflow ++ c ∷ buf)).0)

  -- If every buffer of a connection but the last is full and ends in a fragment that does not parse,
  -- and the last one is neither full nor empty, what is sent are the lines of the whole text that are
  -- longer than a byte, as if it had been read at once.
  pub read_input-lines :
      (overflow : Bytes) (bufs : List Bytes)
      → IsStream overflow bufs
      → read_input F overflow bufs ≡ done (messages (lines (overflow ++ join bufs)))
  unfolding read_input
  read_input-lines overflow [] s = absurd s
  read_input-lines overflow (buf ∷ []) (p, q) =
      rw (read_round-last overflow buf p q, append-nil buf)
        (ap done (append-nil (messages (lines (overflow ++ buf)))))
  read_input-lines overflow (buf ∷ next ∷ bufs) (full, (e, fails), s) =
      let (pieces, last) = split (overflow ++ buf) in
      let rest : Bytes = join (next ∷ bufs) in
      rw (read_round-full overflow buf e full fails, read_input-lines last (next ∷ bufs) s)
        (ap done (
          sym (messages-append pieces (lines (last ++ rest)))
          ∙ ap messages (
              sym (lines-append (overflow ++ buf) rest)
              ∙ ap lines (append_assoc overflow buf rest))))

  -- A single line that comes in one buffer is one message.
  pub read_input-line :
      (line : Bytes)
      → IsLine line
      → 1 < length line
      → length line < read_length
      → read_input F [] (line ∷ []) ≡ done (line ∷ [])
  read_input-line line l long short =
      read_input-lines [] (line ∷ []) (omega arith, short)
      ∙ ap done (ap (λ t. messages (lines t)) (append-nil line) ∙ messages-line line l long)

pub read_input_udp-line :
    (line : Bytes) → IsLine line → 1 < length line → read_input_udp (some line) ≡ line ∷ []
unfolding read_input_udp
read_input_udp-line line l long =
    let sent : ltb minimum_length_message (length line) ≡ true = ground arith in
    rw sent (messages-line line l long)
