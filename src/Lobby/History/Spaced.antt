-- ===== src/Lobby/History/Spaced.antt =====
-- The series of a match are bounded, equally long, and evenly spaced.
use robocolony.Common.{
  ℕ, zero, suc, ◌+◌, ◌*◌, ◌-◌, ◌%◌, ◌^◌, ◌≤◌, ◌<◌, ◌≡◌, ◌≢◌, refl, sym, ap, subst, ◌∙◌, arith, List,
  [], ◌∷◌, ◌++◌, map, length, length-append, All, false, not, ◌||◌, inl, inr, Bool-cases, ltb→lt,
  ltb, ◌==◌, or_false_parts, ◌↔◌, ap₂, if_true, if_false, ltb_false→le,
}
use native.Mathlib.Nat.{mul-add-mod_self_right, mod-eq_of_lt, mod_self}
use robocolony.Sim.World.State.{World}
use robocolony.Lobby.History.{
  ColonyHistory, History, history_cap, history_every, every_second, thin, decimate, add_point,
  with_point, within_cap, sample,
}

-- The ticks `s`, `s + i`, `s + 2 * i` and so on, `n` of them.
unfoldable pub spaced : ℕ → ℕ → ℕ → List ℕ
spaced i s zero = []
spaced i s (suc n) = s ∷ spaced i (s + i) n

length-spaced : (i s n : ℕ) → length (spaced i s n) ≡ n
unfolding spaced
length-spaced i s zero = refl
length-spaced i s (suc n) = ap suc (length-spaced i (s + i) n)

next_multiple : (i s n : ℕ) → (s + i) + n * i ≡ s + suc n * i
next_multiple i s n = grind arith

spaced-append : (i s n : ℕ) → spaced i s n ++ (s + n * i) ∷ [] ≡ spaced i s (suc n)
unfolding spaced
spaced-append i s zero = ap (λ x. x ∷ []) (omega arith)
spaced-append i s (suc n) =
    ap (λ xs. s ∷ xs)
      (ap (λ x. spaced i (s + i) n ++ x ∷ []) (sym (next_multiple i s n))
        ∙ spaced-append i (s + i) n)

unfoldable twice : ℕ → ℕ
twice zero = zero
twice (suc n) = suc (suc (twice n))

every_second-spaced :
    (i s m : ℕ) → every_second (spaced i s (suc (twice m))) ≡ spaced (i * 2) s (suc m)
unfolding spaced every_second twice
every_second-spaced i s zero = refl
every_second-spaced i s (suc m) =
    ap (λ xs. s ∷ xs)
      (every_second-spaced i (s + i + i) m
        ∙ ap (λ x. spaced (i * 2) x (suc m)) (let q : s + i + i ≡ s + i * 2 = omega arith in q))

length-every_second {ℓ} :
    {A : Type ℓ} (m : ℕ) (xs : List A)
    → length xs ≡ suc (twice m)
    → length (every_second xs) ≡ suc m
unfolding every_second twice
length-every_second m [] h = absurd (omega arith)
length-every_second zero (x ∷ []) h = refl
length-every_second (suc m) (x ∷ []) h = absurd (omega arith)
length-every_second zero (x ∷ y ∷ rest) h = absurd (omega arith)
length-every_second (suc m) (x ∷ y ∷ rest) h = ap suc (length-every_second m rest (omega arith))

pub record IsParallel (n : ℕ) (c : ColonyHistory) : Type 0 where
  pub score : length c.score ≡ n
  pub robots : length c.robots ≡ n
  pub collected : length c.collected ≡ n

-- A history at a tick: the samples are at the multiples of the interval from 0 to the last that is
-- not past the tick, they are at most 300, and each series of each colony has one entry for each.
pub record IsSpaced (h : History) (tick : ℕ) : Type 0 where
  pub last : ℕ
  pub positive : 0 < h.interval
  pub ticks : h.ticks ≡ spaced h.interval 0 (suc last)
  pub bounded : suc last ≤ history_cap
  pub reached : last * h.interval ≤ tick
  pub within : tick < last * h.interval + h.interval
  pub series : All (IsParallel (suc last)) h.colonies

length-snoc {ℓ} :
    {A : Type ℓ} (xs : List A) (x : A) {n : ℕ} → length xs ≡ n → length (xs ++ x ∷ []) ≡ suc n
length-snoc xs x h = let q = length-append xs (x ∷ []) in omega arith

module _ {G : Type 0} (w : World G) where
  points-IsParallel :
      (n : ℕ) (cs : List ColonyHistory)
      → All (IsParallel n) cs
      → All (IsParallel (suc n)) (map (add_point w) cs)
  unfolding add_point
  points-IsParallel n [] h = tt
  points-IsParallel n (c ∷ cs) h = (
    record {
      score = length-snoc c.score _ h.0.score;
      robots = length-snoc c.robots _ h.0.robots;
      collected = length-snoc c.collected _ h.0.collected;
    },
    points-IsParallel n cs h.1,
  )

thin-IsParallel :
    (m : ℕ) (cs : List ColonyHistory)
    → All (IsParallel (suc (twice m))) cs
    → All (IsParallel (suc m)) (map thin cs)
thin-IsParallel m [] h = tt
thin-IsParallel m (c ∷ cs) h = (
  record {
    score = length-every_second m c.score h.0.score;
    robots = length-every_second m c.robots h.0.robots;
    collected = length-every_second m c.collected h.0.collected;
  },
  thin-IsParallel m cs h.1,
)

-- The remainder of a number that lies in the interval after a multiple.
mod_within : (n i r : ℕ) → 0 < r → r ≤ i → (((n * i + r) % i) ≡ 0) ↔ (r ≡ i)
mod_within n i r p q = (
  λ h. elim (Bool-cases (ltb r i)) [
    | inl e ↦
        let lt = ltb→lt r i e in
        let m = mul-add-mod_self_right n i r in let k = mod-eq_of_lt lt in absurd (omega arith)
    | inr e ↦ let le = ltb_false→le r i e in omega arith
  ],
  λ h. mul-add-mod_self_right n i r ∙ ap (λ x. x % i) h ∙ mod_self i,
)

twice_150 : twice 150 ≡ 300
unfolding twice
twice_150 = refl

decimate-IsSpaced :
    (h : History) (tick : ℕ)
    → tick < 2 ^ 64
    → 0 < h.interval
    → h.ticks ≡ spaced h.interval 0 301
    → 300 * h.interval ≡ tick
    → All (IsParallel 301) h.colonies
    → IsSpaced (decimate h) tick
unfolding decimate
decimate-IsSpaced h tick b p t k s =
    let i = h.interval in
    let small : i * 2 % 2 ^ 64 ≡ i * 2 = mod-eq_of_lt (omega arith) in
    let odd : 301 ≡ suc (twice 150) = ap suc (sym twice_150) in
    record {
      last = 150;
      positive = subst (λ x. 0 < x) (sym small) (omega arith);
      ticks =
          ap every_second (t ∙ ap (spaced i 0) odd)
          ∙ every_second-spaced i 0 150
          ∙ ap (λ x. spaced x 0 151) (sym small);
      bounded = omega arith;
      reached = subst (λ x. 150 * x ≤ tick) (sym small) (omega arith);
      within = subst (λ x. tick < 150 * x + x) (sym small) (omega arith);
      series = thin-IsParallel 150 h.colonies (subst (λ n. All (IsParallel n) h.colonies) odd s);
    }

due_false : (t i : ℕ) → 0 < i → t % i ≡ 0 → (i == 0 || not (t % i == 0)) ≡ false
due_false t i p h = ground arith

due_of : (t i : ℕ) → not (t % i == 0) ≡ false → t % i ≡ 0
due_of t i h = ground arith

module _ {G : Type 0} (w : World G) (h : History) (tick : ℕ) where
  last_multiple : (i n : ℕ) → n * i + i ≡ 0 + suc n * i
  last_multiple i n = grind arith

  -- A sampling tick adds the next multiple, and thins the series out if they are full.
  sampled-IsSpaced :
      (s : IsSpaced h tick)
      → w.tick ≡ suc tick
      → suc tick < 2 ^ 64
      → suc tick ≡ s.last * h.interval + h.interval
      → IsSpaced (within_cap (with_point w h)) (suc tick)
  sampled-IsSpaced s e b r =
      let i = h.interval in
      let n = s.last in
      let more : h.ticks ++ w.tick ∷ [] ≡ spaced i 0 (suc (suc n)) =
        ap₂ (λ xs x. xs ++ x ∷ []) s.ticks (e ∙ r ∙ last_multiple i n)
        ∙ spaced-append i 0 (suc n) in
      let count : length (h.ticks ++ w.tick ∷ []) ≡ suc (suc n) =
        ap length more ∙ length-spaced i 0 (suc (suc n)) in
      let all = points-IsParallel w (suc n) h.colonies s.series in
      elim (Bool-cases (ltb history_cap (length (h.ticks ++ w.tick ∷ [])))) [
        | inl c ↦
            let over = ltb→lt history_cap (length (h.ticks ++ w.tick ∷ [])) c in
            let o = s.bounded in
            let full : n ≡ 299 = omega arith in
            let at : suc (suc n) ≡ 301 = omega arith in
            subst (λ (x : History). IsSpaced x (suc tick)) (sym (if_true _ _ c))
              (decimate-IsSpaced (with_point w h) (suc tick) b s.positive
                (more ∙ ap (spaced i 0) at)
                (let m : n * i ≡ 299 * i = ap (λ x. x * i) full in omega arith)
                (subst (λ x. All (IsParallel x) (map (add_point w) h.colonies)) at all))
        | inr c ↦
            subst (λ (x : History). IsSpaced x (suc tick)) (sym (if_false _ _ c))
              (record {
                last = suc n;
                positive = s.positive;
                ticks = more;
                bounded =
                    let le = ltb_false→le history_cap (length (h.ticks ++ w.tick ∷ [])) c in
                    omega arith;
                reached = let l = last_multiple i n in omega arith;
                within = let l = last_multiple i n in let p = s.positive in omega arith;
                series = all;
              })
      ]

  skipped-IsSpaced :
      (s : IsSpaced h tick) → suc tick ≢ s.last * h.interval + h.interval → IsSpaced h (suc tick)
  skipped-IsSpaced s r = record {
    last = s.last;
    positive = s.positive;
    ticks = s.ticks;
    bounded = s.bounded;
    reached = let p = s.reached in omega arith;
    within = let p = s.within in omega arith;
    series = s.series;
  }

  -- Sampling in the tick after one that has a spaced history gives a spaced history: at most 300
  -- samples, at the multiples of the interval from 0 to the last that is not past the tick, with
  -- series of the same length for each colony.
  pub sample-IsSpaced :
      IsSpaced h tick → w.tick ≡ suc tick → suc tick < 2 ^ 64 → IsSpaced (sample w h) w.tick
  unfolding sample
  sample-IsSpaced s e b =
      let i = h.interval in
      let rest = suc tick - s.last * i in
      let reached = s.reached in
      let within = s.within in
      let split : suc tick ≡ s.last * i + rest = omega arith in
      let law = mod_within s.last i rest (omega arith) (omega arith) in
      subst (IsSpaced (sample w h)) (sym e) (elim (Bool-cases (i == 0 || not (w.tick % i == 0))) [
        | inl c ↦
            subst (λ (x : History). IsSpaced x (suc tick)) (sym (if_true _ _ c))
              (skipped-IsSpaced s (λ q.
                let full : rest ≡ i = omega arith in
                let z = law.1 full in
                let z' = due_false w.tick i s.positive (ap (λ x. x % i) (e ∙ split) ∙ z) in
                absurd cc))
        | inr c ↦
            let parts = or_false_parts (i == 0) (not (w.tick % i == 0)) c in
            let due : w.tick % i ≡ 0 = due_of w.tick i parts.1 in
            let full : rest ≡ i =
              law.0 (ap (λ x. x % i) (sym split) ∙ ap (λ x. x % i) (sym e) ∙ due) in
            subst (λ (x : History). IsSpaced x (suc tick)) (sym (if_false _ _ c))
              (sampled-IsSpaced s e b (split ∙ ap (λ x. s.last * i + x) full))
      ])

module _ {G : Type 0} (w : World G) (cs : List ColonyHistory) where
  -- The history that a match starts with.
  pub start-IsSpaced :
      All (IsParallel 0) cs
      → w.tick ≡ 0
      → IsSpaced (sample w (record { interval = history_every; ticks = []; colonies = cs })) 0
  unfolding sample spaced
  start-IsSpaced s e = rw e (record {
    last = 0;
    positive = omega arith;
    ticks = refl;
    bounded = omega arith;
    reached = omega arith;
    within = omega arith;
    series = points-IsParallel (record w { tick = 0 }) 0 cs s;
  })
