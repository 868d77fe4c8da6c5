-- ===== src/Websocket/Text.antt =====
-- What the framing uses of the standard library: `str::replace`, `str::contains` and
-- `String::from_utf8`.
use xmpp_proxy.Prelude.{
  ℕ, zero, suc, ◌-◌, Bool, ◌&&◌, leb, ltb, ◌==◌, if◌then◌else◌, Bytes, length, starts_with, [], ◌∷◌,
  ◌++◌, Outcome, ok, err, invalid_utf8,
}

-- every place of a needle that is not empty, from the left; `skip` bytes belong to the last one
unfoldable pub replace_from : ℕ → Bytes → Bytes → Bytes → Bytes
replace_from skip [] needle with = []
replace_from (suc skip) (x ∷ xs) needle with = replace_from skip xs needle with
replace_from zero (x ∷ xs) needle with =
    let matched = replace_from (length needle - 1) xs needle with in
    let plain = replace_from zero xs needle with in
    if starts_with (x ∷ xs) needle then with ++ matched else x ∷ plain

unfoldable pub replace : Bytes → Bytes → Bytes → Bytes
unfolding replace_from
replace s needle with = replace_from 0 s needle with

-- what a byte of UTF-8 asks of those that follow: how many, and the range of the next one
abbrev pub Rest : Type 0
Rest = ℕ × ℕ × ℕ

abbrev within : ℕ → ℕ → ℕ → Bool
within lo hi b = leb lo b && leb b hi

-- behind a leading byte; 4 stands for none
unfoldable pub after_lead : ℕ → Rest
after_lead b =
    if ltb b 128
    then (0, 128, 191)
    else if within 194 223 b
    then (1, 128, 191)
    else if b == 224
    then (2, 160, 191)
    else if b == 237
    then (2, 128, 159)
    else if within 225 239 b
    then (2, 128, 191)
    else if b == 240
    then (3, 144, 191)
    else if within 241 243 b
    then (3, 128, 191)
    else if b == 244
    then (3, 128, 143)
    else (4, 0, 0)

unfoldable pub is_utf8_from : Rest → Bytes → Bool
unfolding after_lead
is_utf8_from (n, lo, hi) [] = n == 0
is_utf8_from (zero, lo, hi) (b ∷ bs) =
    let rest = is_utf8_from (after_lead b) bs in ltb (after_lead b).0 4 && rest
is_utf8_from (suc n, lo, hi) (b ∷ bs) =
    let rest = is_utf8_from (n, 128, 191) bs in within lo hi b && rest

unfoldable pub from_utf8 : Bytes → Outcome Bytes
unfolding is_utf8_from
from_utf8 buf = if is_utf8_from (0, 128, 191) buf then ok buf else err invalid_utf8
