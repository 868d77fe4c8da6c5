-- ===== src/Slice/Trim.antt =====
-- `trim_start` removes the longest run of listed elements at the front.
use xmpp_proxy.Prelude.{◌≡◌, refl, ap, true, false, Bool-cases, inl, inr, Bytes, [], ◌∷◌, ◌++◌}
use xmpp_proxy.Slice.{contains, last_index_of, trim_start}

abbrev AllIn : Bytes → Bytes → Type 0
AllIn needle [] = Unit
AllIn needle (x ∷ xs) = (contains needle x ≡ true) × AllIn needle xs

abbrev HeadNotIn : Bytes → Bytes → Type 0
HeadNotIn needle [] = Unit
HeadNotIn needle (x ∷ xs) = contains needle x ≡ false

pub record IsTrimmed (s needle out : Bytes) : Type 0 where
  pub run : Bytes
  pub splits : s ≡ run ++ out
  pub listed : AllIn needle run
  pub longest : HeadNotIn needle out

-- What `trim_start` cuts off are elements of `needle` only, and what it leaves is empty or begins
-- with an element that is not in `needle`.
pub trim_start-IsTrimmed : (s needle : Bytes) → IsTrimmed s needle (trim_start s needle)
unfolding trim_start last_index_of
trim_start-IsTrimmed [] needle = record { run = []; splits = refl; listed = tt; longest = tt }
trim_start-IsTrimmed (x ∷ xs) needle = elim (Bool-cases (contains needle x)) [
  | inl listed ↦
      let rest = trim_start-IsTrimmed xs needle in
      rw listed (record {
        run = x ∷ rest.run;
        splits = ap (◌∷◌ x) rest.splits;
        listed = (listed, rest.listed);
        longest = rest.longest;
      })
  | inr other ↦ rw other (record { run = []; splits = refl; listed = tt; longest = other })
]
