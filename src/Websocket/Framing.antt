-- ===== src/Websocket/Framing.antt =====
-- `from_ws` and `to_ws_new`.
use xmpp_proxy.Prelude.{
  ℕ, ◌-◌, Bool, not, ◌&&◌, ◌||◌, leb, ◌==◌, if◌then◌else◌, Bytes, codes, length, take, drop,
  get_elem?, starts_with, [], ◌++◌, Option, none, some, Outcome, ok, panic, ◌>>=◌,
}
use xmpp_proxy.Slice.{contains_seq, first_index_of, is_ok}
use xmpp_proxy.Filter.{stream_open}
use xmpp_proxy.Websocket.Text.{replace, from_utf8}

abbrev pub framing_server : Bytes
framing_server = codes "urn:ietf:params:xml:ns:xmpp-framing-server"

abbrev pub framing : Bytes
framing = codes "urn:ietf:params:xml:ns:xmpp-framing"

abbrev pub ws_open : Bytes
ws_open = codes "<open "

abbrev pub ws_close : Bytes
ws_close = codes "<close xmlns=\"urn:ietf:params:xml:ns:xmpp-framing\" />"

abbrev pub streams_attribute : Bytes
streams_attribute = codes " xmlns:stream=\"http://etherx.jabber.org/streams\">"

-- the namespaces of an `<open` header
unfoldable pub open_to_stream : Bytes → Bytes
open_to_stream stanza =
    replace (replace (replace stanza ws_open stream_open) framing_server (codes "jabber:server"))
      framing (codes "jabber:client")

unfoldable pub from_ws : Bytes → Bytes
from_ws stanza =
    if starts_with stanza ws_open
    then (if not (contains_seq (open_to_stream stanza) (codes "xmlns:stream="))
        then replace (open_to_stream stanza) (codes "/>") streams_attribute
        else replace (open_to_stream stanza) (codes "/>") (codes ">"))
    else if starts_with stanza (codes "<close ")
    then codes "</stream:stream>"
    else stanza

-- the end of the first tag before its `/`
abbrev pub before_slash : Option ℕ → ℕ → Outcome ℕ
before_slash none e = panic
before_slash (some c) e = ok (if c == b'/' then e - 1 else e)

unfoldable pub tag_text_end : Bytes → ℕ → Outcome ℕ
tag_text_end buf e = before_slash (get_elem? buf (e - 1)) e

unfoldable pub has_xmlns : Bytes → Bool
has_xmlns tag =
    is_ok (first_index_of tag (codes " xmlns='")) || is_ok (first_index_of tag (codes " xmlns=\""))

unfoldable pub has_xmlns_stream : Bytes → Bool
has_xmlns_stream tag =
    not (contains_seq tag (codes "stream:"))
    || (is_ok (first_index_of tag (codes " xmlns:stream='"))
        || is_ok (first_index_of tag (codes " xmlns:stream=\"")))

abbrev pub default_namespace : Bool → Bytes
default_namespace is_c2s =
    if is_c2s then codes " xmlns='jabber:client'" else codes " xmlns='jabber:server'"

-- what is put before the end of the tag
unfoldable pub missing : Bytes → Bool → Bytes
missing tag is_c2s =
    (if not (has_xmlns tag) then default_namespace is_c2s else [])
    ++ (if not (has_xmlns_stream tag)
        then codes " xmlns:stream='http://etherx.jabber.org/streams'"
        else [])

unfoldable pub insert_namespaces : Bytes → Bool → ℕ → Outcome Bytes
insert_namespaces buf is_c2s e = from_utf8 (take e buf) >>= λ tag.
    from_utf8 (drop e buf) >>= λ rest. ok ((tag ++ missing (take e buf) is_c2s) ++ rest)

-- the namespaces declared in the first tag, which ends before `e`; beyond the text a slice panics
unfoldable pub declare_namespaces : Bytes → Bool → ℕ → Outcome Bytes
declare_namespaces buf is_c2s e =
    if leb e (length buf)
    then (if has_xmlns (take e buf) && has_xmlns_stream (take e buf)
        then from_utf8 buf
        else insert_namespaces buf is_c2s e)
    else panic

unfoldable pub stream_to_open : Bytes → Bytes
stream_to_open buf =
    replace
      (replace (replace (replace buf stream_open ws_open) (codes "jabber:server") framing_server)
        (codes "jabber:client") framing)
      (codes ">") (codes "/>")

unfoldable pub to_ws_new : Bytes → ℕ → Bool → Outcome Bytes
to_ws_new buf end_of_first_tag is_c2s =
    if starts_with buf stream_open
    then (from_utf8 buf >>= λ text. ok (stream_to_open text))
    else if end_of_first_tag == 0
    then from_utf8 buf
    else if starts_with buf (codes "</stream:stream")
    then ok ws_close
    else tag_text_end buf end_of_first_tag >>= declare_namespaces buf is_c2s
