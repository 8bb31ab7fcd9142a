-- ===== src/Events/Recent.antt =====
-- The bounded history of the event manager.
use dcs_copilot.Prelude.{
  ℕ, zero, suc, ◌+◌, ◌-◌, ◌≤◌, String, ◌≡◌, refl, sym, ap, ◌∙◌, some, List, [], ◌∷◌, ◌++◌, arith,
  length, length-append, drop, length-drop,
}
use dcs_copilot.Rules.Base.{RuleTransition}
use dcs_copilot.Events.{
  EventManager, ManagedEvent, SpeechPolicy, new_manager, push_bounded, raise_event, close_event,
  handle_transition,
}

-- The last `n` entries.
abbrev pub recent {ℓ} : {A : Type ℓ} → ℕ → List A → List A
recent n xs = drop (length xs - n) xs

drop-drop {ℓ} : {A : Type ℓ} (i j : ℕ) (xs : List A) → drop i (drop j xs) ≡ drop (i + j) xs
drop-drop i zero xs = let e : i + 0 ≡ i = omega arith in rw e refl
drop-drop zero (suc j) [] = let e : 0 + suc j ≡ suc j = omega arith in rw e refl
drop-drop (suc i) (suc j) [] = let e : suc i + suc j ≡ suc (i + suc j) = omega arith in rw e refl
drop-drop i (suc j) (x ∷ xs) =
    let e : i + suc j ≡ suc (i + j) = omega arith in rw e (drop-drop i j xs)

drop-empty : (k : ℕ) (xs : List ManagedEvent) → xs ≡ [] → drop k xs ≡ []
drop-empty zero xs h = h
drop-empty (suc k) xs h = rw h refl

drop-append {ℓ} :
    {A : Type ℓ} (k : ℕ) (xs ys : List A) → k ≤ length xs → drop k (xs ++ ys) ≡ drop k xs ++ ys
drop-append zero xs ys h = refl
drop-append (suc k) [] ys h = absurd (omega (arith, h))
drop-append (suc k) (x ∷ xs) ys h = drop-append k xs ys (omega (arith, h))

push_bounded-recent {ℓ} :
    {A : Type ℓ} (n : ℕ) (xs : List A) (x : A)
    → push_bounded n (recent n xs) x ≡ recent n (xs ++ x ∷ [])
unfolding push_bounded
push_bounded-recent n xs x =
    let k = length xs - n in
    let e : drop k xs ++ x ∷ [] ≡ drop k (xs ++ x ∷ []) =
      sym (drop-append k xs (x ∷ []) (omega arith)) in
    let l : length (drop k xs ++ x ∷ []) - n + k ≡ length (xs ++ x ∷ []) - n =
      omega
        (arith, length-append (drop k xs) (x ∷ []), length-append xs (x ∷ []), length-drop k xs) in
    ap (drop (length (drop k xs ++ x ∷ []) - n)) e
    ∙ drop-drop (length (drop k xs ++ x ∷ []) - n) k (xs ++ x ∷ [])
    ∙ ap (λ j. drop j (xs ++ x ∷ [])) l

-- The manager and the events that its callbacks have received, in order.
abbrev pub run :
    List (RuleTransition × String)
    → EventManager
    → List ManagedEvent
    → EventManager × List ManagedEvent
run [] m seen = (m, seen)
run ((t, fresh) ∷ rest) m seen =
    run rest (handle_transition m t fresh).0 (seen ++ (handle_transition m t fresh).1 ∷ [])

abbrev Kept : EventManager × List ManagedEvent → Type 0
Kept (m, seen) = m.history ≡ recent m.history_size seen

handle_transition-history :
    (m : EventManager) (t : RuleTransition) (fresh : String)
    → let r = handle_transition m t fresh in
      (r.0.history_size ≡ m.history_size)
      × (r.0.history ≡ push_bounded m.history_size m.history r.1)
unfolding handle_transition raise_event close_event
handle_transition-history m t fresh = ground arith

handle_transition-Kept :
    (m : EventManager) (seen : List ManagedEvent) (t : RuleTransition) (fresh : String)
    → Kept (m, seen)
    → Kept ((handle_transition m t fresh).0, seen ++ (handle_transition m t fresh).1 ∷ [])
handle_transition-Kept m seen t fresh k =
    let (e, h) = handle_transition-history m t fresh in
    let made = (handle_transition m t fresh).1 in
    h
    ∙ ap (λ past. push_bounded m.history_size past made) k
    ∙ push_bounded-recent m.history_size seen made
    ∙ ap (λ n. recent n (seen ++ made ∷ [])) (sym e)

run-Kept :
    (ts : List (RuleTransition × String)) (m : EventManager) (seen : List ManagedEvent)
    → Kept (m, seen)
    → Kept (run ts m seen) × ((run ts m seen).0.history_size ≡ m.history_size)
run-Kept [] m seen k = (k, refl)
run-Kept ((t, fresh) ∷ rest) m seen k =
    let (a, b) =
      run-Kept rest (handle_transition m t fresh).0 (seen ++ (handle_transition m t fresh).1 ∷ [])
        (handle_transition-Kept m seen t fresh k) in
    (a, b ∙ (handle_transition-history m t fresh).0)

-- After any sequence of transitions, the history of a new event manager is the last `history_size`
-- of the events that its callbacks received, in their order.
pub run-recent :
    (policy : SpeechPolicy) (size : ℕ) (m : EventManager) (ts : List (RuleTransition × String))
    → new_manager policy size ≡ some m
    → (run ts m []).0.history ≡ recent size (run ts m []).1
unfolding new_manager
run-recent policy size m ts h =
    let start : (m.history ≡ []) × (m.history_size ≡ size) = ground arith in
    let (a, b) = run-Kept ts m [] (start.0 ∙ sym (drop-empty (0 - m.history_size) [] refl)) in
    a ∙ ap (λ n. recent n (run ts m []).1) (b ∙ start.1)
