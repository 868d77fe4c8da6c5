-- ===== src/Tests/Slices.antt =====
-- src/slicesubsequence.rs at concrete inputs.
use xmpp_proxy.Prelude.{◌≡◌, ◌↔◌, refl, Bytes, codes, bytes_eq, ok, ◌∷◌, []}
use xmpp_proxy.Slice.{
  first_index_of, extract_between, replace_first, trim_start, scan_from, splice, contains,
  last_index_of, cut_end,
}
use xmpp_proxy.Slice.Search.{IsSearch, first_index_of-IsSearch, FirstAt-of_ok}
use xmpp_proxy.Slice.Between.{IsBetween, extract_between_iff}
use xmpp_proxy.Slice.Replace.{replace_first_back}

abbrev addressed : Bytes
addressed = codes "bla to='tsnhaou' bla2"

abbrev to_attribute : Bytes
to_attribute = codes " to="

abbrev from_attribute : Bytes
from_attribute = codes " from="

test_trim_start : trim_start (codes "    bla") (codes " \t\n\r") ≡ codes "bla"
unfolding trim_start last_index_of contains
test_trim_start = refl

test_replace_first :
    replace_first addressed to_attribute from_attribute ≡ codes "bla from='tsnhaou' bla2"
unfolding replace_first first_index_of scan_from splice bytes_eq
test_replace_first = refl

test_extract_between : extract_between addressed (codes " to='") (codes "'") ≡ ok (codes "tsnhaou")
unfolding extract_between first_index_of scan_from cut_end bytes_eq
test_extract_between = refl

first_index_of-IsSearch_example :
    IsSearch addressed to_attribute (first_index_of addressed to_attribute)
first_index_of-IsSearch_example = first_index_of-IsSearch addressed to_attribute

extract_between_iff_example :
    (extract_between addressed (codes " to='") (b'\'' ∷ []) ≡ ok (codes "tsnhaou"))
    ↔ IsBetween addressed (codes " to='") b'\'' (codes "tsnhaou")
extract_between_iff_example = extract_between_iff addressed (codes " to='") b'\'' (codes "tsnhaou")

found : first_index_of addressed to_attribute ≡ ok 3
unfolding first_index_of scan_from bytes_eq
found = refl

found_back :
    first_index_of (replace_first addressed to_attribute from_attribute) from_attribute ≡ ok 3
unfolding replace_first splice first_index_of scan_from bytes_eq
found_back = refl

replace_first_back_example :
    replace_first (replace_first addressed to_attribute from_attribute) from_attribute to_attribute
    ≡ addressed
replace_first_back_example =
    replace_first_back addressed to_attribute from_attribute (FirstAt-of_ok found)
      (FirstAt-of_ok found_back)
