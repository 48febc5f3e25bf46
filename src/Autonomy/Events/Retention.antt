-- ===== src/Autonomy/Events/Retention.antt =====
-- The history is a window on the sequence of all events.
use brainless_agent.Common.{
  ℕ, zero, suc, ◌+◌, ◌-◌, ◌≤◌, ◌<◌, true, false, Option, ◌≡◌, refl, sym, ◌∙◌, ap, List, [], ◌∷◌,
  ◌++◌, arith, length, leb, length-append, Bool-cases, inl, inr, append_assoc, append-nil, leb→le,
  leb_false→lt,
}
use brainless_agent.Common.Dict.{Dict}
use brainless_agent.Autonomy.Events.{
  AutonomousEvent, AutonomousEventBus, append_bounded, drop_first, new_bus, numbered, publish,
}

-- The list without its first `n` items, and its last `n` items.
unfoldable pub drop : {A : Type 0} → ℕ → List A → List A
drop zero xs = xs
drop (suc n) [] = []
drop (suc n) (x ∷ xs) = drop n xs

unfoldable pub latest : {A : Type 0} → ℕ → List A → List A
unfolding drop
latest n xs = drop (length xs - n) xs

-- The specification: every event that is published, with its number, and none is forgotten.
unfoldable pub log_from :
    {V : Type 0} → (Dict V → Dict V) → ℕ → List (AutonomousEvent V) → List (AutonomousEvent V)
log_from redact n [] = []
log_from redact n (event ∷ events) = numbered redact (n + 1) event ∷ log_from redact (n + 1) events

unfoldable pub publish_all :
    {V : Type 0}
    → (Dict V → Dict V)
    → List (AutonomousEvent V)
    → AutonomousEventBus V
    → AutonomousEventBus V
unfolding publish
publish_all redact [] bus = bus
publish_all redact (event ∷ events) bus = publish_all redact events (publish redact event bus)

module _ {A : Type 0} where
  length-drop : (n : ℕ) (xs : List A) → length (drop n xs) ≡ length xs - n
  unfolding drop
  length-drop zero xs = omega arith
  length-drop (suc n) [] = omega arith
  length-drop (suc n) (x ∷ xs) = omega (arith, length-drop n xs)

  drop_first-drop :
      (n : ℕ) (xs : List A) (x : A)
      → n ≤ length xs
      → drop_first (drop n xs ++ x ∷ []) ≡ drop (suc n) (xs ++ x ∷ [])
  unfolding drop
  drop_first-drop zero [] x le = refl
  drop_first-drop zero (y ∷ xs) x le = refl
  drop_first-drop (suc n) [] x le = absurd (omega (arith, le))
  drop_first-drop (suc n) (y ∷ xs) x le = drop_first-drop n xs x (omega (arith, le))

  latest-short : (n : ℕ) (xs : List A) → length xs ≤ n → latest n xs ≡ xs
  unfolding latest drop
  latest-short n xs le =
      let none_left : length xs - n ≡ 0 = omega (arith, le) in ap (λ k. drop k xs) none_left

  append_bounded-full :
      (n : ℕ) (xs : List A) (x : A)
      → leb n (length xs) ≡ true
      → append_bounded n xs x ≡ drop_first (xs ++ x ∷ [])
  unfolding append_bounded
  append_bounded-full n xs x e = rw e refl

  append_bounded-room :
      (n : ℕ) (xs : List A) (x : A)
      → leb n (length xs) ≡ false
      → append_bounded n xs x ≡ xs ++ x ∷ []
  unfolding append_bounded
  append_bounded-room n xs x e = rw e refl

  -- One more item in the window.
  append_bounded-latest :
      (n : ℕ) (xs : List A) (x : A) → append_bounded n (latest n xs) x ≡ latest n (xs ++ x ∷ [])
  unfolding latest
  append_bounded-latest n xs x = elim (Bool-cases (leb n (length xs))) [
    | inl full ↦
        let le : n ≤ length xs = leb→le n (length xs) full in
        let one_more : suc (length xs - n) ≡ length (xs ++ x ∷ []) - n =
          omega (arith, le, length-append xs (x ∷ [])) in
        append_bounded-full n (latest n xs) x (ground (arith, length-drop (length xs - n) xs, le))
        ∙ drop_first-drop (length xs - n) xs x (omega arith)
        ∙ ap (λ k. drop k (xs ++ x ∷ [])) one_more
    | inr room ↦
        let lt : length xs < n = leb_false→lt n (length xs) room in
        ap (λ ys. append_bounded n ys x) (latest-short n xs (omega (arith, lt)))
        ∙ append_bounded-room n xs x room
        ∙ sym (latest-short n (xs ++ x ∷ []) (omega (arith, lt, length-append xs (x ∷ []))))
  ]

-- Events published on a bus whose history is the window on a log.
publish_all-latest :
    {V : Type 0} (redact : Dict V → Dict V) (events log : List (AutonomousEvent V))
    (bus : AutonomousEventBus V)
    → bus.history ≡ latest bus.retention log
    → (publish_all redact events bus).history
      ≡ latest bus.retention (log ++ log_from redact bus.sequence events)
unfolding publish_all publish log_from
publish_all-latest redact [] log bus h = h ∙ ap (latest bus.retention) (sym (append-nil log))
publish_all-latest redact (event ∷ events) log bus h =
    let recorded = numbered redact (bus.sequence + 1) event in
    publish_all-latest redact events (log ++ recorded ∷ []) (publish redact event bus) (
      ap (λ xs. append_bounded bus.retention xs recorded) h
      ∙ append_bounded-latest bus.retention log recorded)
    ∙ ap (latest bus.retention)
        (append_assoc log (recorded ∷ []) (log_from redact (bus.sequence + 1) events))

-- The bus refines a log that forgets nothing: after any events on a new bus, its history is the
-- last `retention` entries of the log of them all, numbered from one.
pub history-refines :
    {V : Type 0} (redact : Dict V → Dict V) (retention : ℕ)
    (persistence : Option (List (AutonomousEvent V))) (events : List (AutonomousEvent V))
    → (publish_all redact events (new_bus retention persistence [])).history
      ≡ latest retention (log_from redact 0 events)
unfolding new_bus latest
history-refines redact retention persistence events =
    publish_all-latest redact events [] (new_bus retention persistence [])
      (sym (latest-short retention [] (omega arith)))
