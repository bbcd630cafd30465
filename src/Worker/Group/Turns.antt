-- ===== src/Worker/Group/Turns.antt =====
-- What turns do to goroutines that return once their context is done.
use ve_xchange_api.Prelude.{
  ℕ, zero, suc, ◌+◌, ◌-◌, ◌≤◌, ◌<◌, ◌≡◌, refl, ◌==◌, ◌&&◌, Bool, true, false, List, [], ◌∷◌, arith,
  ap, ◌∙◌, length, if◌then◌else◌,
}
use ve_xchange_api.Worker.Loop.{Event, fired, cancelled}
use ve_xchange_api.Worker.Group.{wait_count, turn, run_turns}

abbrev pub is_cancelled : Event → Bool
is_cancelled fired = false
is_cancelled cancelled = true

-- How many turns of a goroutine see that the context is done.
abbrev pub cancellations : ℕ → List (ℕ × Event) → ℕ
cancellations i [] = 0
cancellations i ((j, e) ∷ turns) =
    let later = cancellations i turns in if (i == j) && is_cancelled e then later + 1 else later

-- Two such turns for each goroutine.
abbrev pub rounds : ℕ → List (ℕ × Event)
rounds zero = []
rounds (suc n) = (n, cancelled) ∷ (n, cancelled) ∷ rounds n

cancellations-rounds : (i n : ℕ) → i < n → 2 ≤ cancellations i (rounds n)
cancellations-rounds i zero below = absurd (omega arith)
cancellations-rounds i (suc n) below = grind (arith, cancellations-rounds i n)

module _ {ℓ} {S W : Type ℓ} (go_on : Event → S → W → S × W) (is_over : S → Bool) where
  -- A goroutine needs `to_go` such turns at most until it is over; and then it does nothing.
  pub record Drains : Type ℓ where
    pub to_go : S → ℕ
    pub cancelled_le : (g : S) (w : W) → to_go (go_on cancelled g w).0 ≤ to_go g - 1
    pub fired_le : (g : S) (w : W) → to_go (go_on fired g w).0 ≤ to_go g
    pub over : (g : S) → to_go g ≤ 0 → is_over g ≡ true
    pub stays : (e : Event) (g : S) (w : W) → is_over g ≡ true → go_on e g w ≡ (g, w)

  module _ (d : Drains) where
    abbrev pub to_go_at : ℕ → List S → ℕ
    to_go_at i [] = 0
    to_go_at zero (g ∷ gs) = d.to_go g
    to_go_at (suc i) (g ∷ gs) = to_go_at i gs

    to_go_at-turn :
        (i j : ℕ) (e : Event) (gs : List S) (w : W)
        → to_go_at i (turn go_on j e gs w).0
          ≤ to_go_at i gs - (if (i == j) && is_cancelled e then 1 else 0)
    unfolding turn
    to_go_at-turn i j e [] w = omega arith
    to_go_at-turn zero zero fired (g ∷ gs) w = omega (arith, d.fired_le g w)
    to_go_at-turn zero zero cancelled (g ∷ gs) w = d.cancelled_le g w
    to_go_at-turn zero (suc j) e (g ∷ gs) w = grind arith
    to_go_at-turn (suc i) zero e (g ∷ gs) w = grind arith
    to_go_at-turn (suc i) (suc j) e (g ∷ gs) w = grind (arith, to_go_at-turn i j e gs w)

    to_go_at-run_turns :
        (i : ℕ) (turns : List (ℕ × Event)) (gs : List S) (w : W)
        → to_go_at i (run_turns go_on turns gs w).0 ≤ to_go_at i gs - cancellations i turns
    unfolding run_turns
    to_go_at-run_turns i [] gs w = omega arith
    to_go_at-run_turns i ((j, e) ∷ turns) gs w =
        let (gs', w') = turn go_on j e gs w in
        ground (arith, to_go_at-turn i j e gs w, to_go_at-run_turns i turns gs' w')

    length-turn :
        (i : ℕ) (e : Event) (gs : List S) (w : W) → length (turn go_on i e gs w).0 ≡ length gs
    unfolding turn
    length-turn i e [] w = refl
    length-turn zero e (g ∷ gs) w = refl
    length-turn (suc i) e (g ∷ gs) w = ap suc (length-turn i e gs w)

    length-run_turns :
        (turns : List (ℕ × Event)) (gs : List S) (w : W)
        → length (run_turns go_on turns gs w).0 ≡ length gs
    unfolding run_turns
    length-run_turns [] gs w = refl
    length-run_turns ((i, e) ∷ turns) gs w =
        let (gs', w') = turn go_on i e gs w in length-run_turns turns gs' w' ∙ length-turn i e gs w

    wait_count-zero :
        (gs : List S) → ((i : ℕ) → i < length gs → to_go_at i gs ≤ 0) → wait_count is_over gs ≡ 0
    unfolding wait_count
    wait_count-zero [] h = refl
    wait_count-zero (g ∷ gs) h = ground (
      arith,
      d.over g (h 0 (omega arith)),
      wait_count-zero gs (λ i below. h (suc i) (omega arith)),
    )

    -- A turn changes nothing if all are over.
    pub turn-over :
        (i : ℕ) (e : Event) (gs : List S) (w : W)
        → wait_count is_over gs ≡ 0
        → turn go_on i e gs w ≡ (gs, w)
    unfolding turn wait_count
    turn-over i e [] w none_left = refl
    turn-over zero e (g ∷ gs) w none_left = rw (d.stays e g w (ground arith)) refl
    turn-over (suc i) e (g ∷ gs) w none_left = rw (turn-over i e gs w (ground arith)) refl

    run_turns-over :
        (turns : List (ℕ × Event)) (gs : List S) (w : W)
        → wait_count is_over gs ≡ 0
        → run_turns go_on turns gs w ≡ (gs, w)
    unfolding run_turns
    run_turns-over [] gs w none_left = refl
    run_turns-over ((i, e) ∷ turns) gs w none_left =
        rw (turn-over i e gs w none_left) (run_turns-over turns gs w none_left)

    -- With as many such turns as each needs, all are over, and later turns change nothing.
    pub run_turns-drained :
        (turns : List (ℕ × Event)) (gs : List S) (w : W)
        → ((i : ℕ) → i < length gs → to_go_at i gs ≤ cancellations i turns)
        → let (gs', w') = run_turns go_on turns gs w in
          (wait_count is_over gs' ≡ 0)
          × ((later : List (ℕ × Event)) → run_turns go_on later gs' w' ≡ (gs', w'))
    run_turns-drained turns gs w enough =
        let (gs', w') = run_turns go_on turns gs w in
        let none_left : wait_count is_over gs' ≡ 0 = wait_count-zero gs' (λ i below. omega (
          arith,
          to_go_at-run_turns i turns gs w,
          enough i (rw (length-run_turns turns gs w) at below),
        )) in
        (none_left, λ later. run_turns-over later gs' w' none_left)

    to_go_at-le : (n i : ℕ) (gs : List S) → ((g : S) → d.to_go g ≤ n) → to_go_at i gs ≤ n
    to_go_at-le n i [] h = omega arith
    to_go_at-le n zero (g ∷ gs) h = h g
    to_go_at-le n (suc i) (g ∷ gs) h = to_go_at-le n i gs h

    -- Goroutines that need two such turns at most are over after two each.
    pub run_turns-rounds :
        (gs : List S) (w : W)
        → ((g : S) → d.to_go g ≤ 2)
        → wait_count is_over (run_turns go_on (rounds (length gs)) gs w).0 ≡ 0
    run_turns-rounds gs w h =
        (run_turns-drained (rounds (length gs)) gs w (λ i below.
          omega (arith, to_go_at-le 2 i gs h, cancellations-rounds i (length gs) below))).0
