-- ===== src/Stream/Received.antt =====
-- About the events that are read of a stream of chain/internal/api/api.go.
use l1_modular_blockchain.Common.{
  ℕ, ◌≡◌, refl, ◌∙◌, ap, Bool, true, false, ◌&&◌, not, none, some, List, [], ◌∷◌, ◌++◌, arith, ◌==◌,
  All, Bool-cases, inl, inr,
}
use mathlib.Core.List.{append_assoc}
use l1_modular_blockchain.Types.{
  Event, Payload, service_registered, inference_requested, result_submitted, request_finalized,
  request_refunded, block_committed, domain_registered, request_challenged, request_slashed,
  request_vouched, request_dismissed, service_updated, service_deactivated, domain_deactivated,
  request_voided,
}
use l1_modular_blockchain.Stream.Text.{
  Text, newline, codes, is_space, is_line_end, trim_right, trim_line, kept_before, lines_from,
}
use l1_modular_blockchain.Stream.Writer.{
  EventJson, ReadsBack, OnOneLine, event_type, Turn, heartbeat, emitted, write_event, write_turn,
  write_stream, sent_events, is_sent,
}
use l1_modular_blockchain.Stream.Reader.{
  line_data, decoded, add_decoded, events_of_lines, read_stream,
}

abbrev on_one_line : Text → Bool
on_one_line [] = true
on_one_line (c ∷ cs) = not (c == newline) && on_one_line cs

on_one_line-append :
    (s t : Text) → on_one_line s ≡ true → on_one_line t ≡ true → on_one_line (s ++ t) ≡ true
on_one_line-append [] t h k = k
on_one_line-append (c ∷ s) t h k = ground (arith, on_one_line-append s t)

OnOneLine-on_one_line : (s : Text) → OnOneLine s → on_one_line s ≡ true
OnOneLine-on_one_line [] h = refl
OnOneLine-on_one_line (c ∷ s) h = ground (arith, OnOneLine-on_one_line s h.1)

event_type-on_one_line : (p : Payload) → on_one_line (codes (event_type p)) ≡ true
unfolding codes event_type
event_type-on_one_line (service_registered p) = refl
event_type-on_one_line (inference_requested p) = refl
event_type-on_one_line (result_submitted p) = refl
event_type-on_one_line (request_finalized p) = refl
event_type-on_one_line (request_refunded p) = refl
event_type-on_one_line (block_committed p) = refl
event_type-on_one_line (domain_registered p) = refl
event_type-on_one_line (request_challenged p) = refl
event_type-on_one_line (request_slashed p) = refl
event_type-on_one_line (request_vouched p) = refl
event_type-on_one_line (request_dismissed p) = refl
event_type-on_one_line (service_updated p) = refl
event_type-on_one_line (service_deactivated p) = refl
event_type-on_one_line (domain_deactivated p) = refl
event_type-on_one_line (request_voided p) = refl

-- The first line of a text.
lines_from-line :
    (s line rest : Text)
    → on_one_line s ≡ true
    → lines_from line (s ++ newline ∷ rest) ≡ (line ++ (s ++ newline ∷ [])) ∷ lines_from [] rest
lines_from-line [] line rest h = refl
lines_from-line (c ∷ s) line rest h = elim (Bool-cases (c == newline)) [
  | inl ends ↦ absurd (ground arith)
  | inr goes_on ↦
      rw (lines_from, goes_on)
        (lines_from-line s (line ++ c ∷ []) rest (ground arith)
          ∙ ap (λ l. l ∷ lines_from [] rest) (append_assoc line (c ∷ []) (s ++ newline ∷ [])))
]

-- Trimming stops at a character that is not trimmed.
trim_right-stop :
    (p : ℕ → Bool) (s : Text) (c : ℕ) (t : Text)
    → p c ≡ false
    → trim_right p t ≡ []
    → trim_right p (s ++ c ∷ t) ≡ s ++ c ∷ []
trim_right-stop p [] c t h k = rw (k, h) refl
trim_right-stop p (d ∷ []) c t h k = rw (trim_right-stop p [] c t h k) refl
trim_right-stop p (d ∷ x ∷ s) c t h k = rw (trim_right-stop p (x ∷ s) c t h k) refl

-- A line with another first character than that of `data:` has no data.
trim_line-head :
    (c : ℕ) (s : Text) → is_line_end c ≡ false → (t : Text) × (trim_line (c ∷ s) ≡ c ∷ t)
trim_line-head c s h = kept (trim_line s)
  where
    kept : (t : Text) → (u : Text) × (kept_before is_line_end c t ≡ c ∷ u)
    kept [] = ([], rw h refl)
    kept (d ∷ ds) = (d ∷ ds, refl)

line_data-other :
    (c : ℕ) (s : Text) → (100 == c) ≡ false → is_line_end c ≡ false → line_data (c ∷ s) ≡ none
unfolding line_data codes
line_data-other c s h k = let (t, e) = trim_line-head c s k in rw (e, h) refl

line_data-json :
    (json : EventJson) (e : Event)
    → line_data (codes "data: " ++ (json.marshal e ++ newline ∷ [])) ≡ some (json.marshal e)
unfolding line_data codes
line_data-json json e =
    let (fields, shape, single) = json.marshal-object e in
    let object = 123 ∷ (fields ++ 125 ∷ []) in
    let line : trim_line (codes "data: " ++ (object ++ newline ∷ [])) ≡ codes "data: " ++ object =
      rw (append_assoc fields (125 ∷ []) (newline ∷ [])) (
        trim_right-stop is_line_end (codes "data: " ++ 123 ∷ fields) 125 (newline ∷ []) refl
          refl) in
    let data_ : trim_right is_space object ≡ object =
      trim_right-stop is_space (123 ∷ fields) 125 [] refl refl in
    rw (shape, line, data_) refl

-- The lines of a stream, from its front.
module _ (json : EventJson) where
  abbrev events_from : Text → List Event
  events_from stream = events_of_lines json (lines_from [] stream)

  first_line :
      (s rest : Text)
      → on_one_line s ≡ true
      → events_from (s ++ newline ∷ rest)
        ≡ add_decoded (decoded json (line_data (s ++ newline ∷ []))) (events_from rest)
  unfolding events_of_lines
  first_line s rest h = ap (events_of_lines json) (lines_from-line s [] rest h)

  object-on_one_line : (e : Event) → on_one_line (json.marshal e) ≡ true
  object-on_one_line e =
      let (fields, shape, single) = json.marshal-object e in
      rw shape (on_one_line-append fields (125 ∷ []) (OnOneLine-on_one_line fields single) refl)

  blank_line : (rest : Text) → events_from (newline ∷ rest) ≡ events_from rest
  unfolding line_data codes
  blank_line rest = first_line [] rest refl

  sent_turn :
      (wanted : List Text) (e : Event)
      → is_sent wanted (codes (event_type e.payload)) ≡ true
      → write_turn json wanted (emitted e) ≡ write_event json e
  unfolding write_turn
  sent_turn wanted e sent = rw sent refl

  dropped_turn :
      (wanted : List Text) (e : Event)
      → is_sent wanted (codes (event_type e.payload)) ≡ false
      → write_turn json wanted (emitted e) ≡ []
  unfolding write_turn
  dropped_turn wanted e dropped = rw dropped refl

  event_lines :
      (e : Event) (rest : Text)
      → ReadsBack json e
      → events_from (write_event json e ++ rest) ≡ e ∷ events_from rest
  unfolding write_event codes
  event_lines e rest back =
      let name = codes "event: " ++ codes (event_type e.payload) in
      let object = codes "data: " ++ json.marshal e in
      let split : write_event json e ++ rest
          ≡ name ++ newline ∷ (object ++ newline ∷ newline ∷ rest) =
        simp append_assoc in
      let first =
        first_line name (object ++ newline ∷ newline ∷ rest) (event_type-on_one_line e.payload) in
      let second = first_line object (newline ∷ rest) (object-on_one_line e) in
      ap events_from split
      ∙ first
      ∙ ap (λ d. add_decoded (decoded json d) (events_from (object ++ newline ∷ newline ∷ rest)))
          (line_data-other 101 _ refl refl)
      ∙ second
      ∙ ap (λ d. add_decoded (decoded json d) (events_from (newline ∷ rest)))
          (line_data-json json e)
      ∙ ap (λ d. add_decoded d (events_from (newline ∷ rest))) back
      ∙ ap (λ es. e ∷ es) (blank_line rest)

  heartbeat_lines :
      (wanted : List Text) (rest : Text)
      → events_from (write_turn json wanted heartbeat ++ rest) ≡ events_from rest
  unfolding write_turn codes
  heartbeat_lines wanted rest =
      first_line (codes ": ping") (newline ∷ rest) refl
      ∙ ap (λ d. add_decoded (decoded json d) (events_from (newline ∷ rest)))
          (line_data-other 58 _ refl refl)
      ∙ blank_line rest

  -- From the stream that the chain writes for a list of events and heartbeats and a list of wanted
  -- types, a client reads exactly the events whose type is wanted, in their order, if the JSON of
  -- these events is read back.
  pub read_stream-write_stream :
      (wanted : List Text) (turns : List Turn)
      → All (ReadsBack json) (sent_events wanted turns)
      → read_stream json (write_stream json wanted turns) ≡ sent_events wanted turns
  unfolding read_stream write_stream events_of_lines
  read_stream-write_stream wanted [] back = refl
  read_stream-write_stream wanted (heartbeat ∷ turns) back =
      heartbeat_lines wanted (write_stream json wanted turns)
      ∙ read_stream-write_stream wanted turns back
  read_stream-write_stream wanted (emitted e ∷ turns) back =
      elim (Bool-cases (is_sent wanted (codes (event_type e.payload)))) [
        | inl sent ↦
            rw (sent, sent_turn wanted e sent)
              (event_lines e (write_stream json wanted turns) (rw sent at back).0
                ∙ ap (λ es. e ∷ es) (read_stream-write_stream wanted turns (rw sent at back).1))
        | inr dropped ↦
            rw (dropped, dropped_turn wanted e dropped)
              (read_stream-write_stream wanted turns (rw dropped at back))
      ]
