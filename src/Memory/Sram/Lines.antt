-- ===== src/Memory/Sram/Lines.antt =====
-- What the two loops over a set find.
use mathlib.Core.Option.{some_inj}
use mathlib.Core.Path.{subst}
use csapp_stay.Prelude.{
  ℕ, zero, suc, ◌+◌, ◌≤◌, ◌<◌, ◌≡◌, ◌≢◌, ◌↔◌, refl, sym, ◌∙◌, inl, inr, arith, true, false, Option,
  none, some, ◌==◌, ==_iff, Bool-cases, ltb,
}
use csapp_stay.Memory.Sram.{
  LineState, invalid, clean, dirty, CacheLine, CacheSet, is_invalid, Scan, scan_line, scan,
  scan_set, hits, find_hit, Outcome, hit, fill, evict, failed, choose_victim, choose_free, choose,
  outcome,
}

-- Lines that agree but for their time.
abbrev pub SameLine : CacheLine → CacheLine → Type 0
SameLine l k = (l.state ≡ k.state) × (l.tag ≡ k.tag) × (l.block ≡ k.block)

pub scan-SameLine : (n i : ℕ) (s : Scan) (k : ℕ) → SameLine ((scan n i s).lines k) (s.lines k)
unfolding scan scan_line
scan-SameLine zero i s k = (refl, refl, refl)
scan-SameLine (suc n) i s k =
    let (a, b, c) = scan-SameLine n (i + 1) (scan_line i s) k in
    elim (Bool-cases (i == k)) [
      | inl e ↦
          let at : i ≡ k = (==_iff i k).0 e in
          (a ∙ rw at (ground arith), b ∙ rw at (ground arith), c ∙ rw at (ground arith))
      | inr e ↦ (a ∙ ground arith, b ∙ ground arith, c ∙ ground arith)
    ]

scan-time_outside :
    (n i : ℕ) (s : Scan) (k : ℕ) → k < i → ((scan n i s).lines k).time ≡ (s.lines k).time
unfolding scan scan_line
scan-time_outside zero i s k h = refl
scan-time_outside (suc n) i s k h =
    scan-time_outside n (i + 1) (scan_line i s) k (omega arith) ∙ ground arith

-- Each line that the loop reads grows older by one.
scan-time :
    (n i : ℕ) (s : Scan) (k : ℕ)
    → i ≤ k
    → k < i + n
    → ((scan n i s).lines k).time ≡ (s.lines k).time + 1
unfolding scan scan_line
scan-time zero i s k lo hi = absurd (omega arith)
scan-time (suc n) i s k lo hi = elim (Bool-cases (i == k)) [
  | inl e ↦
      let at : i ≡ k = (==_iff i k).0 e in
      scan-time_outside n (i + 1) (scan_line i s) k (omega arith) ∙ rw at (ground arith)
  | inr e ↦ scan-time n (i + 1) (scan_line i s) k (ground arith) (omega arith) ∙ ground arith
]

-- The free line is one of the lines read and is invalid; without one, all lines read are valid.
abbrev Free : CacheSet → ℕ → Option ℕ → Type 0
Free c i none = (k : ℕ) → k < i → (c k).state ≢ invalid
Free c i (some k) = (k < i) × ((c k).state ≡ invalid)

-- The victim is one of the lines read, with the largest new time.
abbrev Victim : CacheSet → ℕ → Option (ℕ × ℕ) → Type 0
Victim c i none = i ≡ 0
Victim c i (some (k, t)) = (k < i) × ((c k).time ≡ t) × ((j : ℕ) → j < i → (c j).time ≤ t)

is_invalid_iff : (s : LineState) → (is_invalid s ≡ true) ↔ (s ≡ invalid)
is_invalid_iff invalid = (λ h. refl, λ h. refl)
is_invalid_iff clean = (λ h. cc, λ h. cc)
is_invalid_iff dirty = (λ h. cc, λ h. cc)

scan_line-Free :
    (i : ℕ) (s : Scan) (f : Option ℕ)
    → s.free ≡ f
    → Free s.lines i f
    → Free (scan_line i s).lines (i + 1) (scan_line i s).free
unfolding scan_line
scan_line-Free i s f e h = elim (Bool-cases (is_invalid (s.lines i).state)) [
  | inl q ↦ rw q (omega arith, ground (arith, is_invalid_iff (s.lines i).state))
  | inr q ↦ rw (q, e) (kept q f h)
]
  where
    kept :
        is_invalid (s.lines i).state ≡ false
        → (f : Option ℕ) → Free s.lines i f
        → Free (scan_line i s).lines (i + 1) f
    kept q none h = λ k hk. ground (arith, h k, is_invalid_iff (s.lines i).state)
    kept q (some k) h = (omega arith, ground arith)

scan_line-Victim :
    (i : ℕ) (s : Scan) (v : Option (ℕ × ℕ))
    → s.victim ≡ v
    → Victim s.lines i v
    → Victim (scan_line i s).lines (i + 1) (scan_line i s).victim
unfolding scan_line
scan_line-Victim i s none e h = rw e (omega arith, ground arith, λ j hj. ground arith)
scan_line-Victim i s (some (k, t)) e h = elim (Bool-cases (ltb t ((s.lines i).time + 1))) [
  | inl q ↦ rw (e, q) (omega arith, ground arith, λ j hj. ground (arith, h.2 j))
  | inr q ↦ rw (e, q) (omega arith, ground arith, λ j hj. ground (arith, h.2 j))
]

-- What both loops establish at the end, at line `j`.
scan_lem :
    (n i j : ℕ) (s : Scan)
    → i + n ≡ j
    → Free s.lines i s.free
    → Victim s.lines i s.victim
    → Free (scan n i s).lines j (scan n i s).free × Victim (scan n i s).lines j (scan n i s).victim
unfolding scan
scan_lem zero i j s e f v =
    let at : i ≡ j = omega arith in
    (subst (λ j. Free s.lines j s.free) at f, subst (λ j. Victim s.lines j s.victim) at v)
scan_lem (suc n) i j s e f v =
    scan_lem n (i + 1) j (scan_line i s) (omega arith) (scan_line-Free i s s.free refl f)
      (scan_line-Victim i s s.victim refl v)

hits_iff : (l : CacheLine) (t : ℕ) → (hits l t ≡ true) ↔ ((l.state ≢ invalid) × (l.tag ≡ t))
hits_iff l t = ground (arith, is_invalid_iff l.state)

find_hit-some :
    (n i : ℕ) (c : CacheSet) (t k : ℕ)
    → find_hit n i c t ≡ some k
    → (k < i + n) × (hits (c k) t ≡ true)
unfolding find_hit
find_hit-some zero i c t k e = cc
find_hit-some (suc n) i c t k e = elim (Bool-cases (hits (c i) t)) [
  | inl q ↦
      let at : i ≡ k = some_inj.0 (rw q at e) in
      subst (λ k. (k < i + suc n) × (hits (c k) t ≡ true)) at (omega arith, q)
  | inr q ↦ let (lt, h) = find_hit-some n (i + 1) c t k (rw q at e) in (omega arith, h)
]

find_hit-none :
    (n i : ℕ) (c : CacheSet) (t k : ℕ)
    → find_hit n i c t ≡ none
    → i ≤ k
    → k < i + n
    → hits (c k) t ≡ false
unfolding find_hit
find_hit-none zero i c t k e lo hi = absurd (omega arith)
find_hit-none (suc n) i c t k e lo hi = elim (Bool-cases (hits (c i) t)) [
  | inl q ↦ cc (rw q at e)
  | inr q ↦ elim (Bool-cases (i == k)) [
    | inl w ↦ subst (λ k. hits (c k) t ≡ false) ((==_iff i k).0 w) q
    | inr w ↦ find_hit-none n (i + 1) c t k (rw q at e) (ground arith) (omega arith)
  ]
]

-- No valid line of the set has the tag.
abbrev pub Missed : CacheSet → ℕ → Type 0
Missed c t = (k : ℕ) → k < 8 → (c k).state ≢ invalid → (c k).tag ≢ t

-- What each way to end says of the set as it was before the access.
abbrev pub Selected : CacheSet → ℕ → Outcome → Type 0
Selected c t (hit i) = (i < 8) × ((c i).state ≢ invalid) × ((c i).tag ≡ t)
Selected c t (fill i) = (i < 8) × ((c i).state ≡ invalid) × Missed c t
Selected c t (evict i) =
    (i < 8)
    × ((k : ℕ) → k < 8 → (c k).state ≢ invalid)
    × Missed c t
    × ((k : ℕ) → k < 8 → (c k).time ≤ (c i).time)
Selected c t failed = ⊥

module _ (c : CacheSet) where
  pub scan_set-SameLine : (k : ℕ) → SameLine ((scan_set c).lines k) (c k)
  unfolding scan_set
  scan_set-SameLine k = scan-SameLine 8 0 _ k

  scan_set-time : (k : ℕ) → k < 8 → ((scan_set c).lines k).time ≡ (c k).time + 1
  unfolding scan_set
  scan_set-time k h = scan-time 8 0 _ k (omega arith) (omega arith)

  scan_set_lem :
      Free (scan_set c).lines 8 (scan_set c).free × Victim (scan_set c).lines 8 (scan_set c).victim
  unfolding scan_set
  scan_set_lem = scan_lem 8 0 8 _ refl (λ k h. absurd (omega arith)) refl

  module _ (t : ℕ) where
    scan_set-Missed : find_hit 8 0 (scan_set c).lines t ≡ none → Missed c t
    scan_set-Missed e k h v q =
        let (a, b, _) = scan_set-SameLine k in
        let miss = find_hit-none 8 0 (scan_set c).lines t k e (omega arith) (omega arith) in
        cc (sym miss ∙ (hits_iff ((scan_set c).lines k) t).1 (λ w. v (sym a ∙ w), b ∙ q))

    Victim-Selected :
        (v : Option (ℕ × ℕ))
        → Victim (scan_set c).lines 8 v
        → ((k : ℕ) → k < 8 → (c k).state ≢ invalid)
        → Missed c t
        → Selected c t (choose_victim v)
    unfolding choose_victim
    Victim-Selected none v f m = absurd (omega arith)
    Victim-Selected (some (i, time)) (lt, at, old) f m =
        (lt, f, m, λ k h. omega (arith, old k h, scan_set-time k h, scan_set-time i lt))

    Free-Selected :
        (f : Option ℕ)
        → Free (scan_set c).lines 8 f
        → Missed c t
        → Selected c t (choose_free f (scan_set c).victim)
    unfolding choose_free
    Free-Selected none f m =
        Victim-Selected _ scan_set_lem.1 (λ k h q. f k h ((scan_set-SameLine k).0 ∙ q)) m
    Free-Selected (some i) (lt, v) m = (lt, sym (scan_set-SameLine i).0 ∙ v, m)

    chosen-Selected :
        (h : Option ℕ)
        → find_hit 8 0 (scan_set c).lines t ≡ h
        → Selected c t (choose h (scan_set c).free (scan_set c).victim)
    unfolding choose
    chosen-Selected none e = Free-Selected _ scan_set_lem.0 (scan_set-Missed e)
    chosen-Selected (some i) e =
        let (lt, h) = find_hit-some 8 0 (scan_set c).lines t i e in
        let (v, q) = (hits_iff ((scan_set c).lines i) t).0 h in
        let (a, b, _) = scan_set-SameLine i in (lt, λ w. v (a ∙ w), sym b ∙ q)

    -- Every access selects a line of the set: the valid line with the tag if there is one, else an
    -- invalid line, else, the set being full, one that was used longest ago; the assertion never
    -- fails.
    pub outcome-Selected : Selected c t (outcome c t)
    unfolding outcome
    outcome-Selected = chosen-Selected _ refl
