-- ===== src/Tests/Filters.antt =====
-- src/stanzafilter.rs at concrete inputs.
use xmpp_proxy.Prelude.{
  ℕ, ◌≡◌, refl, true, Bytes, codes, bytes_eq, ◌==◌, ◌||◌, starts_with, some, ok, err, panic,
  stanza_too_big, arith, [], ◌∷◌, ◌++◌,
}
use xmpp_proxy.Filter.{
  StanzaFilter, new, process_next_byte_idx, process_byte, dispatch, settle, stanza_end, checked_sub,
  last_equals, last_num_bytes, mark_first_tag, self_closing, close_tag, previous_byte, tag_end,
}
use xmpp_proxy.Filter.Reader.{eof, read_loop, next, next_eoft, write_byte, emit_stanza}
use xmpp_proxy.Filter.Safe.{
  IsValid, IsSafe, new-IsValid, write_byte-IsValid, process_next_byte_idx-IsSafe,
}
use xmpp_proxy.Filter.Calls.{
  LeavesSafe, next_eoft-LeavesSafe, next_eoft_after_too_big, IsReady, new-IsReady,
}
use xmpp_proxy.Filter.Cut.{NoOpen, IsCut, next_eoft-IsCut}
use xmpp_proxy.Filter.Scan.{view, scan_loop}
use xmpp_proxy.Filter.Scan.Refines.{SameRead, next-SameRead}
use xmpp_proxy.Filter.Stanza.{
  IsTag, tag, tag_done, IsElement, empty_element, element, nothing, child, NoSlash,
}
use xmpp_proxy.Filter.Stanza.Whole.{IsStanza, whole_element}
use xmpp_proxy.Filter.Stanza.Reads.{
  GivesOut, next_eoft-GivesOut, Gives, IsStream, stream_end, stanza, IsStream-Gives,
}

abbrev small : StanzaFilter
small = new 32

small-IsValid : IsValid small
small-IsValid = new-IsValid 32 (omega arith)

small-IsReady : IsReady 32 small
small-IsReady = new-IsReady 32 (omega arith)

abbrev two_stanzas : Bytes
two_stanzas = codes "\n<a x='>'/> <b><c/></b>"

gives_first : (next_eoft small two_stanzas eof).result ≡ ok (some (codes "<a x='>'/>", 9))
unfolding next_eoft read_loop process_next_byte_idx process_byte dispatch settle stanza_end
    checked_sub last_equals last_num_bytes mark_first_tag self_closing close_tag previous_byte
    tag_end bytes_eq
gives_first = refl

too_big : (next_eoft (new 4) two_stanzas eof).result ≡ err stanza_too_big
unfolding next_eoft read_loop process_next_byte_idx process_byte dispatch settle stanza_end
    checked_sub last_equals last_num_bytes mark_first_tag self_closing close_tag previous_byte
    tag_end bytes_eq
too_big = refl

name-IsTag :
    (c : ℕ)
    → ¬ (
        ((c == b'/')
          || ((c == b'!') || ((c == b'?') || ((c == b'>') || ((c == b'\'') || (c == b'"'))))))
        ≡ true)
    → IsTag (c ∷ [])
name-IsTag c h = tag h tag_done

a-IsElement : IsElement (codes "<a/>")
a-IsElement = empty_element (name-IsTag b'a' (λ h. cc))

nested-IsElement : IsElement (codes "<b><a/></b>")
nested-IsElement =
    let t : IsTag (codes "b") = name-IsTag b'b' (λ h. cc) in
    let k : NoSlash (codes "b") = record {
      init = [];
      last = b'b';
      splits = refl;
      not_slash = λ e. absurd (omega arith);
    } in
    element t k (child a-IsElement nothing) t k

a-IsStanza : IsStanza (codes "<a/>")
unfolding starts_with
a-IsStanza = whole_element a-IsElement refl

nested-IsStanza : IsStanza (codes "<b><a/></b>")
unfolding starts_with
nested-IsStanza = whole_element nested-IsElement refl

one_space-NoOpen : NoOpen (codes " ")
one_space-NoOpen = (λ e. absurd (omega arith), tt)

two-IsStream :
    IsStream 32 (codes "x") (codes " <a/> <b><a/></b>x") (codes "<a/>" ∷ codes "<b><a/></b>" ∷ [])
two-IsStream =
    stanza (codes " ") one_space-NoOpen a-IsStanza (omega arith)
      (stanza (codes " ") one_space-NoOpen nested-IsStanza (omega arith) stream_end)

IsStream-Gives_example :
    Gives eof
      (codes "x")
      small
      (codes " <a/> <b><a/></b>x")
      (codes "<a/>" ∷ codes "<b><a/></b>" ∷ [])
IsStream-Gives_example = IsStream-Gives 32 small eof small-IsReady two-IsStream

next_eoft-GivesOut_example :
    GivesOut 32
      (codes "<a/>")
      (codes "<b")
      (next_eoft small (codes " " ++ (codes "<a/>" ++ codes "<b")) eof)
next_eoft-GivesOut_example =
    next_eoft-GivesOut 32 small (codes " ") (codes "<a/>") (codes "<b") eof small-IsReady
      one_space-NoOpen a-IsStanza (omega arith)

next-SameRead_example :
    SameRead (next small two_stanzas eof) (scan_loop emit_stanza (view small) two_stanzas eof)
next-SameRead_example = next-SameRead small two_stanzas eof small-IsValid

next_eoft-LeavesSafe_example :
    LeavesSafe (next_eoft small two_stanzas eof).result (next_eoft small two_stanzas eof).filter
next_eoft-LeavesSafe_example = next_eoft-LeavesSafe small two_stanzas eof small-IsValid

next_eoft_after_too_big_example :
    (next_eoft (next_eoft (new 4) two_stanzas eof).filter (codes "<a/>") eof).result ≡ panic
next_eoft_after_too_big_example =
    next_eoft_after_too_big (new 4) two_stanzas (codes "<a/>") eof eof (new-IsValid 4 (omega arith))
      too_big

next_eoft-IsCut_example :
    IsCut small two_stanzas (codes "<a x='>'/>") (next_eoft small two_stanzas eof).rest
next_eoft-IsCut_example = next_eoft-IsCut small two_stanzas eof small-IsValid gives_first

process_next_byte_idx-IsSafe_example :
    IsSafe (write_byte small b'<') b'<' (process_next_byte_idx (write_byte small b'<'))
process_next_byte_idx-IsSafe_example =
    process_next_byte_idx-IsSafe (write_byte-IsValid small b'<' small-IsValid) refl
