-- ===== src/Slice.antt =====
-- src/slicesubsequence.rs: `SliceSubsequence`, at bytes, the one type at which the program calls
-- it. The `Vec` and the slice implementations have one text, and so one model.
pub mod Search
pub mod Between
pub mod Replace
pub mod Trim
use xmpp_proxy.Prelude.{
  ℕ, zero, suc, ◌+◌, ◌-◌, ◌==◌, leb, Bool, true, false, ◌||◌, if◌then◌else◌, Bytes, bytes_eq,
  length, take, drop, [], ◌∷◌, ◌++◌, Option, none, some, Outcome, ok, err, panic, not_found, ◌>>=◌,
}

-- `&s[lo..hi]`, for `lo <= hi <= s.len()`
abbrev pub slice : ℕ → ℕ → Bytes → Bytes
slice lo hi s = drop lo (take hi s)

-- `needle.contains(i)`
unfoldable pub contains : Bytes → ℕ → Bool
contains [] b = false
contains (x ∷ xs) b = x == b || contains xs b

-- `last_index_of`: how many of the first elements are in `needle`
unfoldable pub last_index_of : Bytes → Bytes → ℕ
last_index_of [] needle = 0
last_index_of (x ∷ xs) needle = if contains needle x then suc (last_index_of xs needle) else 0

unfoldable pub trim_start : Bytes → Bytes → Bytes
trim_start s needle = drop (last_index_of s needle) s

-- the `for` of `first_index_of`, with the number of rounds left
unfoldable pub scan_from : ℕ → ℕ → Bytes → Bytes → Option ℕ
scan_from zero i s needle = none
scan_from (suc rounds) i s needle =
    let rest = scan_from rounds (suc i) s needle in
    if bytes_eq (slice i (i + length needle) s) needle then some i else rest

abbrev or_not_found : Option ℕ → Outcome ℕ
or_not_found (some i) = ok i
or_not_found none = err not_found

unfoldable pub first_index_of : Bytes → Bytes → Outcome ℕ
first_index_of s needle =
    if leb (length needle) (length s)
    then or_not_found (scan_from (length s - length needle + 1) 0 s needle)
    else err not_found

abbrev pub is_ok {ℓ} : {A : Type ℓ} → Outcome A → Bool
is_ok (ok _) = true
is_ok (err _) = false
is_ok panic = false

unfoldable pub contains_seq : Bytes → Bytes → Bool
contains_seq s needle = is_ok (first_index_of s needle)

-- the splice at the index that `first_index_of` found
unfoldable pub splice : Outcome ℕ → Bytes → Bytes → Bytes → Bytes
splice (ok i) s needle replacement = take i s ++ (replacement ++ drop (i + length needle) s)
splice (err _) s needle replacement = s
splice panic s needle replacement = s

unfoldable pub replace_first : Bytes → Bytes → Bytes → Bytes
unfolding splice
replace_first s needle replacement = splice (first_index_of s needle) s needle replacement

-- `&first[..idx + after.len() - 1]`: the end underflows if both are 0
unfoldable pub cut_end : ℕ → ℕ → Bytes → Outcome Bytes
cut_end i n first = if i + n == 0 then panic else ok (take (i + n - 1) first)

unfoldable pub extract_between : Bytes → Bytes → Bytes → Outcome Bytes
extract_between s before after = first_index_of s before >>= λ i.
    let first = drop (i + length before) s in
    first_index_of first after >>= λ j. cut_end j (length after) first
