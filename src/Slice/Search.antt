-- ===== src/Slice/Search.antt =====
-- `first_index_of` against the places where the needle stands.
use xmpp_proxy.Prelude.{
  ℕ, zero, suc, ◌+◌, ◌-◌, ◌≤◌, ◌<◌, ◌≡◌, inl, inr, refl, sym, ap, ◌∙◌, leb, true, Bool-cases,
  leb→le, leb→lt, Bytes, bytes_eq, bytes_eq_iff, length, take, drop, [], ◌∷◌, ◌++◌, length-append,
  length-take, take-append-drop, take-append_length, drop-append_length, Option, none, some,
  Outcome, ok, err, not_found, arith, panic, subst,
}
use native.Mathlib.Decide.{dec_lt}
use xmpp_proxy.Slice.{slice, or_not_found, scan_from, first_index_of, is_ok, contains_seq}

-- `needle` stands in `s` with `i` bytes before it.
pub record OccursAt (s needle : Bytes) (i : ℕ) : Type 0 where
  pub before : Bytes
  pub after : Bytes
  pub splits : s ≡ before ++ (needle ++ after)
  pub place : length before ≡ i

-- Of these places the first is `i`.
pub record FirstAt (s needle : Bytes) (i : ℕ) : Type 0 where
  pub occurs : OccursAt s needle i
  pub first : (j : ℕ) → j < i → ¬ OccursAt s needle j

drop-take : (i n m : ℕ) (s : Bytes) → i + n ≡ m → drop i (take m s) ≡ take n (drop i s)
drop-take zero n m s e = ap (λ k. take k s) (omega arith)
drop-take (suc i) n zero s e = absurd (omega arith)
drop-take (suc i) zero (suc m) [] e = refl
drop-take (suc i) (suc n) (suc m) [] e = refl
drop-take (suc i) n (suc m) (x ∷ xs) e = drop-take i n m xs (omega arith)

slice-eq : (i n : ℕ) (s : Bytes) → slice i (i + n) s ≡ take n (drop i s)
slice-eq i n s = drop-take i n (i + n) s refl

OccursAt-of_slice :
    (s needle : Bytes) (i : ℕ)
    → i ≤ length s
    → slice i (i + length needle) s ≡ needle
    → OccursAt s needle i
OccursAt-of_slice s needle i h e = record {
  before = take i s;
  after = drop (length needle) (drop i s);
  splits =
      sym (take-append-drop i s)
      ∙ ap (◌++◌ (take i s)) (
          sym (take-append-drop (length needle) (drop i s))
          ∙ ap (λ t. t ++ drop (length needle) (drop i s))
              (sym (slice-eq i (length needle) s) ∙ e));
  place = omega (arith, length-take i s);
}

slice_of_splits :
    (before needle after : Bytes) (i : ℕ)
    → length before ≡ i
    → slice i (i + length needle) (before ++ (needle ++ after)) ≡ needle
slice_of_splits before needle after i e =
    slice-eq i (length needle) _
    ∙ rw (← e, drop-append_length before (needle ++ after)) (take-append_length needle after)

slice-of_OccursAt :
    (s needle : Bytes) (i : ℕ) → OccursAt s needle i → slice i (i + length needle) s ≡ needle
slice-of_OccursAt s needle i o =
    subst (λ t. slice i (i + length needle) t ≡ needle) (sym o.splits)
      (slice_of_splits o.before needle o.after i o.place)

-- A place leaves room for the needle.
pub OccursAt-le : {s needle : Bytes} {i : ℕ} → OccursAt s needle i → i + length needle ≤ length s
OccursAt-le {s} {needle} o = omega (
  arith,
  o.place,
  ap length o.splits,
  length-append o.before (needle ++ o.after),
  length-append needle o.after,
)

abbrev IsScan : Bytes → Bytes → ℕ → Option ℕ → ℕ → Type 0
IsScan s needle i (some k) n =
    (i ≤ k) × (k < n) × OccursAt s needle k × ((j : ℕ) → i ≤ j → j < k → ¬ OccursAt s needle j)
IsScan s needle i none n = (j : ℕ) → i ≤ j → j < n → ¬ OccursAt s needle j

IsScan-miss :
    (s needle : Bytes) (i n : ℕ) (r : Option ℕ)
    → ¬ OccursAt s needle i
    → IsScan s needle (suc i) r n
    → IsScan s needle i r n
IsScan-miss s needle i n (some k) miss (a, b, o, f) = (omega arith, b, o, before)
  where
    before : (j : ℕ) → i ≤ j → j < k → ¬ OccursAt s needle j
    before j h l p = elim (dec_lt i j) [
      | yes q ↦ f j q l p
      | no q ↦ miss (subst (OccursAt s needle) (omega arith) p)
    ]
IsScan-miss s needle i n none miss f = λ j h l p. elim (dec_lt i j) [
  | yes q ↦ f j q l p
  | no q ↦ miss (subst (OccursAt s needle) (omega arith) p)
]

scan_from-IsScan :
    (rounds i : ℕ) (s needle : Bytes)
    → i + rounds ≤ length s + 1
    → IsScan s needle i (scan_from rounds i s needle) (i + rounds)
unfolding scan_from
scan_from-IsScan zero i s needle h = λ j a b. absurd (omega arith)
scan_from-IsScan (suc rounds) i s needle h =
    elim (Bool-cases (bytes_eq (slice i (i + length needle) s) needle)) [
      | inl hit ↦ rw hit (
        omega arith,
        omega arith,
        OccursAt-of_slice s needle i (omega arith) ((bytes_eq_iff _ _).0 hit),
        λ j a b. absurd (omega arith),
      )
      | inr miss ↦
          let later : IsScan s needle (suc i) (scan_from rounds (suc i) s needle) (i + suc rounds) =
            subst (IsScan s needle (suc i) (scan_from rounds (suc i) s needle)) (omega arith)
              (scan_from-IsScan rounds (suc i) s needle (omega arith)) in
          rw miss (
            IsScan-miss s needle i (i + suc rounds) (scan_from rounds (suc i) s needle)
              (λ o. cc ((bytes_eq_iff _ _).1 (slice-of_OccursAt s needle i o))) later)
    ]

abbrev pub IsSearch : Bytes → Bytes → Outcome ℕ → Type 0
IsSearch s needle (ok i) = FirstAt s needle i
IsSearch s needle (err e) = (e ≡ not_found) × ((j : ℕ) → ¬ OccursAt s needle j)
IsSearch s needle panic = ⊥

IsSearch-scan :
    (s needle : Bytes) (r : Option ℕ)
    → length needle ≤ length s
    → IsScan s needle 0 r (0 + (length s - length needle + 1))
    → IsSearch s needle (or_not_found r)
IsSearch-scan s needle (some k) h (a, b, o, f) = record {
  occurs = o;
  first = λ j l. f j (omega arith) l;
}
IsSearch-scan s needle none h f = (refl, λ j o. f j (omega arith) (omega (arith, OccursAt-le o)) o)

-- `first_index_of` never panics. It returns the first place at which the needle stands, and fails
-- with "not found" only where the needle stands at no place.
pub first_index_of-IsSearch : (s needle : Bytes) → IsSearch s needle (first_index_of s needle)
unfolding first_index_of
first_index_of-IsSearch s needle = elim (Bool-cases (leb (length needle) (length s))) [
  | inl fits ↦ rw fits (
      IsSearch-scan s needle _ (leb→le _ _ fits) (
        scan_from-IsScan (length s - length needle + 1) 0 s needle
          (omega (arith, leb→le _ _ fits))))
  | inr long ↦ rw long (refl, λ j o. absurd (omega (arith, OccursAt-le o, leb→lt _ _ long)))
]

-- The first place is unique.
pub first_index_of-FirstAt :
    {s needle : Bytes} {i : ℕ} → FirstAt s needle i → first_index_of s needle ≡ ok i
first_index_of-FirstAt {s} {needle} {i} f =
    agree (first_index_of s needle) (first_index_of-IsSearch s needle)
  where
    agree : (r : Outcome ℕ) → IsSearch s needle r → r ≡ ok i
    agree (ok k) g = elim (dec_lt k i) [
      | yes p ↦ absurd (f.first k p g.occurs)
      | no p ↦ elim (dec_lt i k) [
        | yes q ↦ absurd (g.first i q f.occurs)
        | no q ↦ ap ok (omega arith)
      ]
    ]
    agree (err e) (_, g) = absurd (g i f.occurs)
    agree panic g = absurd g

pub FirstAt-of_ok : {s needle : Bytes} {i : ℕ} → first_index_of s needle ≡ ok i → FirstAt s needle i
FirstAt-of_ok {s} {needle} e = subst (IsSearch s needle) e (first_index_of-IsSearch s needle)

pub contains_seq-OccursAt :
    (s needle : Bytes) → contains_seq s needle ≡ true → (i : ℕ) × OccursAt s needle i
unfolding contains_seq
contains_seq-OccursAt s needle = decide (first_index_of s needle) (first_index_of-IsSearch s needle)
  where
    decide : (r : Outcome ℕ) → IsSearch s needle r → is_ok r ≡ true → (i : ℕ) × OccursAt s needle i
    decide (ok k) g h = (k, g.occurs)
    decide (err e) g h = cc
    decide panic g h = cc

pub OccursAt-contains_seq :
    {s needle : Bytes} {i : ℕ} → OccursAt s needle i → contains_seq s needle ≡ true
unfolding contains_seq
OccursAt-contains_seq {s} {needle} {i} o =
    decide (first_index_of s needle) (first_index_of-IsSearch s needle)
  where
    decide : (r : Outcome ℕ) → IsSearch s needle r → is_ok r ≡ true
    decide (ok k) g = refl
    decide (err e) g = absurd (g.1 i o)
    decide panic g = absurd g

-- What stands before and behind a place, as the code cuts it out.
pub take-OccursAt : {s needle : Bytes} {i : ℕ} (o : OccursAt s needle i) → take i s ≡ o.before
take-OccursAt {s} {needle} o =
    subst (λ k. take k s ≡ o.before) o.place
      (ap (take (length o.before)) o.splits ∙ take-append_length o.before (needle ++ o.after))

drop_splits :
    (before needle after : Bytes)
    → drop (length before + length needle) (before ++ (needle ++ after)) ≡ after
drop_splits [] needle after =
    let e : 0 + length needle ≡ length needle = omega arith in
    rw e (drop-append_length needle after)
drop_splits (x ∷ xs) needle after =
    let e : suc (length xs) + length needle ≡ suc (length xs + length needle) = omega arith in
    rw e (drop_splits xs needle after)

pub drop-OccursAt :
    {s needle : Bytes} {i : ℕ} (o : OccursAt s needle i) → drop (i + length needle) s ≡ o.after
drop-OccursAt {s} {needle} o =
    subst (λ k. drop (k + length needle) s ≡ o.after) o.place
      (ap (drop (length o.before + length needle)) o.splits ∙ drop_splits o.before needle o.after)
