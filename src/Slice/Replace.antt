-- ===== src/Slice/Replace.antt =====
-- `replace_first` by the first place of the needle, and how it is undone.
use xmpp_proxy.Prelude.{ℕ, ◌≡◌, ◌⊎◌, inl, inr, refl, sym, ◌∙◌, Bytes, ◌++◌, Outcome, ok, err, panic}
use xmpp_proxy.Slice.{first_index_of, splice, replace_first}
use xmpp_proxy.Slice.Search.{
  OccursAt, FirstAt, IsSearch, first_index_of-IsSearch, first_index_of-FirstAt, take-OccursAt,
  drop-OccursAt,
}

-- At the first place of the needle the replacement stands instead of it.
pub replace_first-FirstAt :
    (s needle replacement : Bytes) {i : ℕ} (f : FirstAt s needle i)
    → replace_first s needle replacement ≡ f.occurs.before ++ (replacement ++ f.occurs.after)
unfolding replace_first
replace_first-FirstAt s needle replacement f =
    rw (first_index_of-FirstAt f, splice) (rw (take-OccursAt f.occurs, drop-OccursAt f.occurs))

abbrev pub Replaced : Bytes → Bytes → Bytes → Bytes → Type 0
Replaced s needle replacement out =
    ((i : ℕ) × (f : FirstAt s needle i) × (out
        ≡ f.occurs.before ++ (replacement ++ f.occurs.after)))
    ⊎ (((j : ℕ) → ¬ OccursAt s needle j) × (out ≡ s))

-- `replace_first` puts the replacement at the first place of the needle and leaves the bytes before
-- and behind it; where the needle stands nowhere, it changes nothing.
pub replace_first-Replaced :
    (s needle replacement : Bytes)
    → Replaced s needle replacement (replace_first s needle replacement)
unfolding replace_first
replace_first-Replaced s needle replacement =
    decide (first_index_of s needle) (first_index_of-IsSearch s needle)
  where
    decide :
        (r : Outcome ℕ)
        → IsSearch s needle r
        → Replaced s needle replacement (splice r s needle replacement)
    decide (ok i) f = inl (i, f, rw (take-OccursAt f.occurs, drop-OccursAt f.occurs))
    decide (err e) (_, nowhere) = inr (nowhere, refl)
    decide panic h = absurd h

-- Where the replacement first stands at the place that it was put, replacing it by the needle gives
-- the text back.
pub replace_first_back :
    (s needle replacement : Bytes) {i : ℕ}
    → FirstAt s needle i
    → FirstAt (replace_first s needle replacement) replacement i
    → replace_first (replace_first s needle replacement) replacement needle ≡ s
replace_first_back s needle replacement f g =
    let o : OccursAt (replace_first s needle replacement) replacement _ = record {
      before = f.occurs.before;
      after = f.occurs.after;
      splits = replace_first-FirstAt s needle replacement f;
      place = f.occurs.place;
    } in
    let front = sym (take-OccursAt g.occurs) ∙ take-OccursAt o in
    let back = sym (drop-OccursAt g.occurs) ∙ drop-OccursAt o in
    replace_first-FirstAt _ replacement needle g ∙ rw (front, back) (sym f.occurs.splits)
