-- ===== src/Chain/Mining/Adjustment.antt =====
-- The difficulty adjustment (`calculate_next_difficulty`).
use native.Mathlib.Nat.{zero-div, div-lt_iff_lt-mul}
use kyvera_core.Prelude.{
  ℕ, ◌+◌, ◌-◌, ◌*◌, ◌≤◌, ◌<◌, ◌≡◌, refl, ap, ◌∙◌, true, false, Bool, List, [], ◌∷◌, ◌++◌, drop,
  length-append, arith, ltb, length, min, if◌then◌else◌,
}
use kyvera_core.Prelude.Int.{ℤ, pos, negsuc, ltb_ℤ, leb_ℤ, ◌-ℤ◌, div_ℤ}
use kyvera_core.Chain.Mining.{
  calculate_next_difficulty, average_seconds, target_seconds, min_difficulty, max_difficulty,
  last_or,
}

-- From a difficulty in range, and whatever the timestamps are, the next difficulty is in range and
-- differs from the current one by at most 1.
pub calculate_next_difficulty_range :
    (current : ℕ) (timestamps : List ℤ) (is_epoch_block : Bool)
    → min_difficulty ≤ current
    → current ≤ max_difficulty
    → (min_difficulty ≤ calculate_next_difficulty current timestamps is_epoch_block)
      × (calculate_next_difficulty current timestamps is_epoch_block ≤ max_difficulty)
      × (calculate_next_difficulty current timestamps is_epoch_block ≤ current + 1)
      × (current ≤ calculate_next_difficulty current timestamps is_epoch_block + 1)
unfolding calculate_next_difficulty
calculate_next_difficulty_range current timestamps is_epoch_block lo hi = ground arith

-- The direction that the average block time asks for, one step at most, within the range.
unfoldable pub towards_target : ℕ → ℤ → ℕ → ℕ
towards_target current average target =
    if ltb_ℤ average (pos target)
    then min (current + 1) max_difficulty
    else if ltb_ℤ (pos target) average
    then (if ltb min_difficulty current then current - 1 else current)
    else current

calculate_next_difficulty-eq-towards_target :
    (current : ℕ) (timestamps : List ℤ) (is_epoch_block : Bool)
    → min_difficulty ≤ current
    → current ≤ max_difficulty
    → 2 ≤ length timestamps
    → calculate_next_difficulty current timestamps is_epoch_block
      ≡ towards_target current (average_seconds timestamps) (target_seconds is_epoch_block)
unfolding calculate_next_difficulty towards_target
calculate_next_difficulty-eq-towards_target current timestamps is_epoch_block lo hi enough =
    ground arith

-- The average over a number of gaps is below a target exactly when the time is below the target's
-- multiple.
below_target : (x : ℤ) (k t : ℕ) → 0 < k → 0 < t → ltb_ℤ (div_ℤ x k) (pos t) ≡ ltb_ℤ x (pos (t * k))
unfolding div_ℤ
below_target (pos n) k t hk ht =
    ground (arith, zero-div k, div-lt_iff_lt-mul {k = k} {x = n} {y = t} hk)
below_target (negsuc n) k t hk ht = ground (arith, zero-div k)

above_target : (x : ℤ) (k t : ℕ) → 0 < k → ltb_ℤ (pos t) (div_ℤ x k) ≡ leb_ℤ (pos ((t + 1) * k)) x
unfolding div_ℤ
above_target (pos n) k t hk =
    ground (arith, zero-div k, div-lt_iff_lt-mul {k = k} {x = n} {y = t + 1} hk)
above_target (negsuc n) k t hk = ground (arith, zero-div k)

drop-length : {A : Type 0} (older recent : List A) → drop (length older) (older ++ recent) ≡ recent
drop-length [] recent = refl
drop-length (x ∷ older) recent = drop-length older recent

last_or-append : {A : Type 0} (xs : List A) (x d : A) → last_or (xs ++ (x ∷ [])) d ≡ x
last_or-append [] x d = refl
last_or-append (y ∷ xs) x d = last_or-append xs x y

-- The average over the last timestamps, at most 144 of them.
average_seconds_window :
    (older mid : List ℤ) (first last : ℤ)
    → length mid + 2 ≡ min (length older + length mid + 2) 144
    → average_seconds (older ++ (first ∷ (mid ++ (last ∷ []))))
      ≡ div_ℤ (last -ℤ first) (length mid + 1)
unfolding average_seconds
average_seconds_window older mid first last window =
    let recent : List ℤ = first ∷ (mid ++ (last ∷ [])) in
    let gaps : length recent ≡ length mid + 2 = omega (arith, length-append mid (last ∷ [])) in
    let skipped : length (older ++ recent) - min (length (older ++ recent)) 144 ≡ length older =
      omega (arith, gaps, window, length-append older recent) in
    let kept : drop (length (older ++ recent) - min (length (older ++ recent)) 144)
          (older ++ recent)
        ≡ recent =
      ap (λ n. drop n (older ++ recent)) skipped ∙ drop-length older recent in
    let count : length recent - 1 ≡ length mid + 1 = omega (arith, gaps) in
    rw kept (rw (last_or-append mid last first, count) refl)

-- The difficulty after a time for a number of gaps between blocks, at a target time per gap: one
-- step up when the time is below the target's multiple, one step down when it is a second per gap
-- above it or more.
unfoldable pub stepped : ℕ → ℤ → ℕ → ℕ → ℕ
stepped current elapsed gaps target =
    if ltb_ℤ elapsed (pos (target * gaps))
    then min (current + 1) 64
    else if leb_ℤ (pos ((target + 1) * gaps)) elapsed
    then (if ltb 1 current then current - 1 else current)
    else current

towards_target-stepped :
    (current : ℕ) (elapsed : ℤ) (n : ℕ) (is_epoch_block : Bool)
    → towards_target current (div_ℤ elapsed (n + 1)) (target_seconds is_epoch_block)
      ≡ stepped current elapsed (n + 1) (if is_epoch_block then 600 else 3)
unfolding towards_target stepped target_seconds
towards_target-stepped current elapsed n true =
    rw
      (
        below_target elapsed (n + 1) 600 (omega arith) (omega arith),
        above_target elapsed (n + 1) 600 (omega arith),
      )
      refl
towards_target-stepped current elapsed n false =
    rw
      (
        below_target elapsed (n + 1) 3 (omega arith) (omega arith),
        above_target elapsed (n + 1) 3 (omega arith),
      )
      refl

-- For timestamps that end in a window of 144, or of all of them if they are fewer, with two at
-- least, and a difficulty between 1 and 64: the next difficulty is one step up, 64 at most, if the
-- last timestamp is less than 600 seconds (3 seconds, for a micro block) per gap of the window after
-- the window's first; one step down, 1 at least, if it is 601 (4) seconds per gap or more after it;
-- and unchanged between the two. The difference of the timestamps is that of `i64`.
pub calculate_next_difficulty-stepped :
    (current : ℕ) (older mid : List ℤ) (first last : ℤ) (is_epoch_block : Bool)
    → 1 ≤ current
    → current ≤ 64
    → length mid + 2 ≡ min (length older + length mid + 2) 144
    → calculate_next_difficulty current (older ++ (first ∷ (mid ++ (last ∷ [])))) is_epoch_block
      ≡ stepped current (last -ℤ first) (length mid + 1) (if is_epoch_block then 600 else 3)
unfolding stepped
calculate_next_difficulty-stepped current older mid first last is_epoch_block lo hi window =
    let timestamps : List ℤ = older ++ (first ∷ (mid ++ (last ∷ []))) in
    let enough : 2 ≤ length timestamps =
      omega (
        arith,
        length-append older (first ∷ (mid ++ (last ∷ []))),
        length-append mid (last ∷ []),
      ) in
    calculate_next_difficulty-eq-towards_target current timestamps is_epoch_block lo hi enough
    ∙ rw (average_seconds_window older mid first last window)
        (towards_target-stepped current (last -ℤ first) (length mid) is_epoch_block)
