-- ===== src/Cleanup/Orders.antt =====
-- src/common/cleanup.c: the events run in the order in which they were added.
use mathlib.Core.Option.{some_inj}
use mathlib.Core.Path.{subst, fun_ext}
use native.Mathlib.Decide.{ℕ_discrete}
use csapp_stay.Prelude.{
  ℕ, zero, suc, ◌+◌, ◌*◌, ◌^◌, ◌≤◌, ◌<◌, ◌≡◌, ◌≢◌, inl, inr, refl, sym, ◌∙◌, ap, arith, false,
  Option, none, some, List, [], ◌∷◌, ◌++◌, ◌==◌, length, length-append, get_elem?,
}
use csapp_stay.Array.{Array, array_construct, array_insert, array_get}
use csapp_stay.Array.Elements.{IsArray, array_insert-IsArray, array_insert-size}
use csapp_stay.Cleanup.{◌>>=◌, opened, add_cleanup_event, run_events, finally_cleanup}

-- The array after the events were added, the oldest first.
pub data Added : List ℕ → Option Array → Type 0 where
  nothing : Added [] none
  added :
      {fs : List ℕ} {events events' : Option Array} (table grown : ℕ → ℕ) (f : ℕ)
      → Added fs events
      → add_cleanup_event table grown events f ≡ some events'
      → Added (fs ++ f ∷ []) events'

-- The functions of the list, one after the other.
unfoldable pub run_all {ℓ} : {S : Type ℓ} → (ℕ → S → Option S) → List ℕ → S → Option S
run_all call [] s = some s
run_all call (f ∷ fs) s = call f s >>= run_all call fs

-- The elements are those of the list, and the size is at most doubled.
pub record Lists (arr : Array) (fs : List ℕ) : Type 0 where
  pub size : arr.count ≡ length fs
  pub fits : arr.count ≤ arr.size
  pub room : 0 < arr.size
  pub bound : arr.size ≤ 10 + length fs * 2
  pub at : (i : ℕ) → i < length fs → array_get arr i ≡ get_elem? fs i

Lists-IsArray : (arr : Array) (fs : List ℕ) → Lists arr fs → length fs < 2 ^ 29 → IsArray arr
Lists-IsArray arr fs l h = record { fits = l.fits; room = l.room; small = omega (arith, l.bound) }

get_elem?-front :
    (fs : List ℕ) (f i : ℕ) → i < length fs → get_elem? (fs ++ f ∷ []) i ≡ get_elem? fs i
get_elem?-front [] f i h = absurd (omega arith)
get_elem?-front (g ∷ fs) f zero h = refl
get_elem?-front (g ∷ fs) f (suc i) h = get_elem?-front fs f i (omega arith)

get_elem?-last : (fs : List ℕ) (f : ℕ) → get_elem? (fs ++ f ∷ []) (length fs) ≡ some f
get_elem?-last [] f = refl
get_elem?-last (g ∷ fs) f = get_elem?-last fs f

array_insert-Lists :
    (block : ℕ → ℕ) (arr : Array) (fs : List ℕ) (f : ℕ)
    → Lists arr fs
    → length fs < 2 ^ 29
    → (arr' : Array) × (array_insert block arr f ≡ some arr') × Lists arr' (fs ++ f ∷ [])
array_insert-Lists block arr fs f l h =
    let ok = Lists-IsArray arr fs l h in
    let (arr', e, count, fits, old, new) = array_insert-IsArray block arr f ok in
    let size = array_insert-size block arr arr' f ok e in
    let len = length-append fs (f ∷ []) in
    (
      arr',
      e,
      record {
        size = omega (arith, count, len, l.size);
        fits = fits;
        room = omega (arith, count, fits);
        bound = elim size [
          | inl q ↦ omega (arith, q, l.bound, len)
          | inr (q, z) ↦ omega (arith, q, z, l.size, len)
        ];
        at = λ i hi. elim (ℕ_discrete i (length fs)) [
          | yes q ↦ rw (q, get_elem?-last fs f) (rw l.size at new)
          | no q ↦
              old i (omega (arith, l.size, hi, len))
              ∙ l.at i (omega (arith, hi, len))
              ∙ sym (get_elem?-front fs f i (omega (arith, hi, len)))
        ];
      },
    )

abbrev pub InOrder : Option Array → List ℕ → Type 0
InOrder none fs = fs ≡ []
InOrder (some arr) fs = Lists arr fs

opened-Lists :
    (table : ℕ → ℕ) (o : Option Array) (fs : List ℕ) → InOrder o fs → Lists (opened table o) fs
unfolding opened array_construct
opened-Lists table none fs e = rw e (record {
  size = refl;
  fits = omega arith;
  room = omega arith;
  bound = omega arith;
  at = λ i h. absurd (omega arith);
})
opened-Lists table (some arr) fs l = l

-- The addition of an event other than NULL.
pub add_cleanup_event-Lists :
    (table grown : ℕ → ℕ) (o : Option Array) (fs : List ℕ) (f : ℕ)
    → InOrder o fs
    → length fs < 2 ^ 29
    → f ≢ 0
    → (arr : Array) × (add_cleanup_event table grown o f ≡ some (some arr))
      × Lists arr (fs ++ f ∷ [])
unfolding add_cleanup_event
add_cleanup_event-Lists table grown o fs f g h used =
    let (arr, e, l) =
      array_insert-Lists grown (opened table o) fs f (opened-Lists table o fs g) h in
    let null : (f == 0) ≡ false = ground arith in (arr, rw (null, e) refl, l)

add_cleanup_event-some :
    (table grown : ℕ → ℕ) (o o' : Option Array) (f : ℕ)
    → add_cleanup_event table grown o f ≡ some o'
    → f ≢ 0
unfolding add_cleanup_event
add_cleanup_event-some table grown o o' f e z = let q : none ≡ some o' = rw z at e in cc q

Added-InOrder : {fs : List ℕ} {o : Option Array} → Added fs o → length fs < 2 ^ 29 → InOrder o fs
Added-InOrder nothing h = refl
Added-InOrder {o} (added {fs} {events} table grown f a e) h =
    let len = length-append fs (f ∷ []) in
    let small : length fs < 2 ^ 29 = omega (arith, h, len) in
    let (arr, e', l) =
      add_cleanup_event-Lists table grown events fs f (Added-InOrder a small) small
        (add_cleanup_event-some table grown events o f e) in
    subst (λ x. InOrder x (fs ++ f ∷ [])) (some_inj.0 (sym e' ∙ e)) l

run_events-run_all {ℓ} :
    {S : Type ℓ} (call : ℕ → S → Option S) (arr : Array) (fs : List ℕ) (i : ℕ) (s : S)
    → ((k : ℕ) → k < length fs → array_get arr (i + k) ≡ get_elem? fs k)
    → run_events call arr (length fs) i s ≡ run_all call fs s
unfolding run_events run_all
run_events-run_all call arr [] i s at = refl
run_events-run_all call arr (f ∷ fs) i s at =
    let zero_at : i + 0 ≡ i = omega arith in
    let first : array_get arr i ≡ some f = rw zero_at at (at 0 (omega arith)) in
    rw first (
      ap (λ k. call f s >>= k)
        (fun_ext λ s'. run_events-run_all call arr fs (suc i) s' (λ k h.
          let next : suc i + k ≡ i + suc k = omega arith in rw next (at (suc k) (omega arith)))))

-- The cleanup of one or more events, fewer than 2^29, that were added one after the other from
-- NULL on, whatever malloc returned, calls their functions in the order of the additions, each
-- once, fails where one of the calls fails, and leaves NULL.
pub finally_cleanup-Added {ℓ} :
    {S : Type ℓ} (call : ℕ → S → Option S) (f : ℕ) (fs : List ℕ) (events : Option Array) (s : S)
    → Added (f ∷ fs) events
    → length (f ∷ fs) < 2 ^ 29
    → finally_cleanup call events s ≡ (run_all call (f ∷ fs) s >>= λ s'. some (none, s'))
unfolding finally_cleanup
finally_cleanup-Added call f fs events s a h = cleaned events (Added-InOrder a h)
  where
    cleaned :
        (o : Option Array)
        → InOrder o (f ∷ fs)
        → finally_cleanup call o s ≡ (run_all call (f ∷ fs) s >>= λ s'. some (none, s'))
    cleaned none e = cc
    cleaned (some arr) l =
        let e : run_events call arr arr.count 0 s ≡ run_all call (f ∷ fs) s =
          ap (λ n. run_events call arr n 0 s) l.size
          ∙ run_events-run_all call arr (f ∷ fs) 0 s
              (λ k hk. let z : 0 + k ≡ k = omega arith in rw z (l.at k hk)) in
        rw e refl
