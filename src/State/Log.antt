-- ===== src/State/Log.antt =====
-- `emit`: the event log, which keeps the last events. State/Feed has its sends to the subscribers.
use l1_modular_blockchain.Common.{
  ℕ, ◌+◌, ◌-◌, ◌≤◌, ◌≡◌, refl, List, [], ◌∷◌, ◌++◌, length, drop, ltb, ap, ◌∙◌, Bool-cases, inl,
  inr, if◌then◌else◌, arith, zero, suc,
}
use l1_modular_blockchain.Types.{Event}

-- `eventLogLimit`
abbrev pub event_log_limit : ℕ
event_log_limit = 1024

unfoldable pub emit : List Event → Event → List Event
emit log e =
    let grown = log ++ e ∷ [] in
    if ltb event_log_limit (length grown)
    then drop (length grown - event_log_limit) grown
    else grown

length-drop {ℓ} : {A : Type ℓ} (n : ℕ) (xs : List A) → length (drop n xs) ≡ length xs - n
length-drop zero xs = omega arith
length-drop (suc n) [] = omega arith
length-drop (suc n) (x ∷ xs) = omega (arith, length-drop n xs)

pub length-snoc {ℓ} : {A : Type ℓ} (xs : List A) (x : A) → length (xs ++ x ∷ []) ≡ length xs + 1
length-snoc [] x = refl
length-snoc (y ∷ xs) x = omega (arith, length-snoc xs x)

drop-snoc {ℓ} :
    {A : Type ℓ} (n : ℕ) (xs : List A) (x : A)
    → n ≤ length xs
    → drop n (xs ++ x ∷ []) ≡ drop n xs ++ x ∷ []
drop-snoc zero xs x h = refl
drop-snoc (suc n) [] x h = absurd (omega (arith, h))
drop-snoc (suc n) (y ∷ xs) x h = drop-snoc n xs x (omega arith)

-- For an event log within the limit, the log after emit is within the limit, its last event is the
-- one that was emitted, and before that stands the old log less at most one event, its oldest.
pub emit-log :
    (log : List Event) (e : Event)
    → length log ≤ event_log_limit
    → (length (emit log e) ≤ event_log_limit)
      × ((dropped : ℕ) × (dropped ≤ 1) × (emit log e ≡ drop dropped log ++ e ∷ []))
unfolding emit
emit-log log e h = elim (Bool-cases (ltb event_log_limit (length (log ++ e ∷ [])))) [
  | inl over ↦
      let size : length log + 1 ≡ 1025 = ground (arith, length-snoc log e) in
      let excess : length (log ++ e ∷ []) - 1024 ≡ 1 = omega (arith, size, length-snoc log e) in
      rw over (
        omega
            (arith, length-snoc log e, length-drop (length (log ++ e ∷ []) - 1024) (log ++ e ∷ [])),
        (
          1,
          omega arith,
          ap (λ n. drop n (log ++ e ∷ [])) excess ∙ drop-snoc 1 log e (omega (arith, size)),
        ),
      )
  | inr within ↦ rw within (ground (arith, length-snoc log e), (0, omega arith, refl))
]
