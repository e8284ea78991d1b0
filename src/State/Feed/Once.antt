-- ===== src/State/Feed/Once.antt =====
-- About the channel of a subscriber: it brings an event at most once.
use l1_modular_blockchain.Common.{
  ℕ, ◌+◌, ◌≤◌, ◌≡◌, sym, ap, some, List, [], ◌∷◌, ◌++◌, length, arith, sum_by, sum_by-append,
  Bool-cases, inl, inr, ltb, true, false, ◌<◌, ◌⊎◌, subst,
}
use l1_modular_blockchain.Types.{Event}
use l1_modular_blockchain.State.Log.{length-snoc}
use l1_modular_blockchain.State.Feed.{
  channel_size, Feed, subscribe, publish, offer, cancel, Label, emitted, received, silent, Step,
  publishes, replays, gives_up, receives, cancels, Run, ends, takes, all_emitted, all_received,
}

-- A send leaves the channel as it is, or puts the event into a buffer that has room.
offer-cases :
    (f g : Feed) (e : Event)
    → offer f e ≡ some g
    → (g ≡ f) ⊎ ((length f.queue < channel_size) × (g ≡ record f { queue = f.queue ++ e ∷ [] }))
unfolding offer
offer-cases f g e h = elim (Bool-cases f.closed) [
  | inl shut ↦ absurd (ground arith)
  | inr live ↦ elim (Bool-cases (ltb (length f.queue) channel_size)) [
    | inl room ↦ inr (ground arith, ground arith)
    | inr full ↦ inl (ground arith)
  ]
]

cancel_cases : (f g : Feed) → cancel f ≡ some g → g ≡ record f { subscribed = false; closed = true }
unfolding cancel
cancel_cases f g h = elim (Bool-cases f.closed) [
  | inl shut ↦ absurd (ground arith)
  | inr live ↦ ground arith
]

-- The buffer never holds more than it can.
offer-size :
    (f g : Feed) (e : Event)
    → length f.queue ≤ channel_size
    → offer f e ≡ some g
    → length g.queue ≤ channel_size
offer-size f g e fits h = elim (offer-cases f g e h) [
  | inl same ↦ subst (λ x. length x.queue ≤ channel_size) (sym same) fits
  | inr (room, grown) ↦
      subst (λ x. length x.queue ≤ channel_size) (sym grown)
        (omega (arith, room, length-snoc f.queue e))
]

Step-size :
    {l : Label} (f g : Feed)
    → Step f l g
    → length f.queue ≤ channel_size
    → length g.queue ≤ channel_size
unfolding publish
Step-size f _ (publishes e) fits = fits
Step-size f g (Step.sends before after e at done) fits =
    offer-size (record f { sends = before ++ after }) g e fits done
Step-size f g (replays rest e at room done) fits =
    offer-size (record f { replay = rest }) g e fits done
Step-size f _ gives_up fits = fits
Step-size f _ (receives rest e at) fits =
    let counted : length f.queue ≡ length (e ∷ rest) = ap length at in omega (arith, counted)
Step-size f g (cancels done) fits =
    subst (λ x. length x.queue ≤ channel_size) (sym (cancel_cases f g done)) fits

Run-size :
    {ls : List Label} (f g : Feed)
    → Run f ls g
    → length f.queue ≤ channel_size
    → length g.queue ≤ channel_size
Run-size f _ ends fits = fits
Run-size f g (takes {g = h} first rest) fits = Run-size h g rest (Step-size f h first fits)

module _ (weight : Event → ℕ) where
  -- What a channel still holds or may come to hold.
  abbrev held : Feed → ℕ
  held f = sum_by weight f.queue + (sum_by weight f.replay + sum_by weight f.sends)

  offer-held : (f g : Feed) (e : Event) → offer f e ≡ some g → held g ≤ held f + weight e
  offer-held f g e h = elim (offer-cases f g e h) [
    | inl same ↦ subst (λ x. held x ≤ held f + weight e) (sym same) (omega arith)
    | inr (room, grown) ↦
        subst (λ x. held x ≤ held f + weight e) (sym grown)
          (omega (arith, sum_by-append weight f.queue (e ∷ [])))
  ]

  publish-held : (f : Feed) (e : Event) → held (publish f e) ≤ held f + weight e
  unfolding publish
  publish-held f e = ground (arith, sum_by-append weight f.sends (e ∷ []))

  -- What a step lets out, it no longer holds.
  Step-held :
      {l : Label} (f g : Feed)
      → Step f l g
      → sum_by weight (all_received (l ∷ [])) + held g
        ≤ held f + sum_by weight (all_emitted (l ∷ []))
  Step-held f _ (publishes e) = omega (arith, publish-held f e)
  Step-held f g (Step.sends before after e at done) =
      let counted : sum_by weight f.sends ≡ sum_by weight (before ++ e ∷ after) =
        ap (sum_by weight) at in
      omega (
        arith,
        counted,
        offer-held (record f { sends = before ++ after }) g e done,
        sum_by-append weight before (e ∷ after),
        sum_by-append weight before after,
      )
  Step-held f g (replays rest e at room done) =
      let counted : sum_by weight f.replay ≡ sum_by weight (e ∷ rest) = ap (sum_by weight) at in
      omega (arith, counted, offer-held (record f { replay = rest }) g e done)
  Step-held f _ gives_up = omega arith
  Step-held f _ (receives rest e at) =
      let counted : sum_by weight f.queue ≡ sum_by weight (e ∷ rest) = ap (sum_by weight) at in
      omega (arith, counted)
  Step-held f g (cancels done) =
      let kept : held g ≤ held f =
        subst (λ x. held x ≤ held f) (sym (cancel_cases f g done)) (omega arith) in
      omega (arith, kept)

  labels-one :
      (l : Label) (ls : List Label)
      → (sum_by weight (all_received (l ∷ ls))
          ≡ sum_by weight (all_received (l ∷ [])) + sum_by weight (all_received ls))
        × (sum_by weight (all_emitted (l ∷ ls))
            ≡ sum_by weight (all_emitted (l ∷ [])) + sum_by weight (all_emitted ls))
  labels-one (emitted e) ls = (omega arith, omega arith)
  labels-one (received e) ls = (omega arith, omega arith)
  labels-one silent ls = (omega arith, omega arith)

  Run-held :
      {ls : List Label} (f g : Feed)
      → Run f ls g
      → sum_by weight (all_received ls) + held g ≤ held f + sum_by weight (all_emitted ls)
  Run-held f _ ends = omega arith
  Run-held f g (takes {g = h} {l = l} {ls = ls} first rest) =
      omega
        (arith, Step-held f h first, Run-held h g rest, (labels-one l ls).0, (labels-one l ls).1)

  -- In every run of a subscriber's channel, its steps in any order, the buffer holds at most 64
  -- events, and for every weight of events, what the subscriber has received weighs at most what
  -- the log held when it subscribed and what was emitted since: no event comes more often than it
  -- was emitted.
  pub Run-once :
      (log : List Event) (ls : List Label) (g : Feed)
      → Run (subscribe log) ls g
      → (length g.queue ≤ channel_size)
        × (sum_by weight (all_received ls) ≤ sum_by weight log + sum_by weight (all_emitted ls))
  unfolding subscribe
  Run-once log ls g run =
      (Run-size (subscribe log) g run (omega arith), omega (arith, Run-held (subscribe log) g run))
