-- ===== src/Filter/Stanza.antt =====
-- The XML that the filter is meant to cut out whole, as a language of byte strings: tags with
-- quoted attributes, text, CDATA sections and nested elements. As in the program the name of a
-- closing tag is not compared with the opening one.
pub mod Steps
pub mod Tags
pub mod TagEnds
pub mod Suffix
pub mod Content
pub mod Elements
pub mod Whole
pub mod Begins
pub mod Runs
pub mod Reads
use xmpp_proxy.Prelude.{
  ℕ, ◌==◌, ◌≡◌, ◌≢◌, false, true, ◌||◌, Bytes, [], ◌∷◌, ◌++◌, length, take, bytes_eq,
}
use xmpp_proxy.Filter.{is_quote, cdata_open, cdata_close}

-- no byte `c`
pub data Avoids (c : ℕ) : Bytes → Type 0 where
  none_left : Avoids c []
  other : {x : ℕ} {xs : Bytes} → x ≢ c → Avoids c xs → Avoids c (x ∷ xs)

-- what may follow the first byte of a tag: bytes that are no `>` and no quote, and quoted strings,
-- which may hold anything but their own quote
pub data IsTagTail : Bytes → Type 0 where
  tag_done : IsTagTail []
  plain : {c : ℕ} {cs : Bytes} → c ≢ b'>' → is_quote c ≡ false → IsTagTail cs → IsTagTail (c ∷ cs)
  quoted :
      {q : ℕ} {body cs : Bytes}
      → is_quote q ≡ true
      → Avoids q body
      → IsTagTail cs
      → IsTagTail (q ∷ (body ++ (q ∷ cs)))

abbrev pub StartsMarkup : ℕ → Type 0
StartsMarkup c = (c == b'/' || (c == b'!' || (c == b'?' || (c == b'>' || is_quote c)))) ≡ true

-- the text between `<` and `>`, or between `</` and `>`
pub data IsTag : Bytes → Type 0 where
  tag : {c : ℕ} {cs : Bytes} → ¬ StartsMarkup c → IsTagTail cs → IsTag (c ∷ cs)

-- it does not end in `/`
pub record NoSlash (t : Bytes) : Type 0 where
  pub init : Bytes
  pub last : ℕ
  pub splits : t ≡ init ++ last ∷ []
  pub not_slash : last ≢ b'/'

-- "]]>" stands nowhere in the body
abbrev pub NoCdataEnd : Bytes → Type 0
NoCdataEnd body = (u v : Bytes) → body ≢ u ++ (cdata_close ++ v)

mutual
  pub data IsElement : Bytes → Type 0 where
    empty_element : {t : Bytes} → IsTag t → IsElement (b'<' ∷ (t ++ (b'/' ∷ b'>' ∷ [])))
    element :
        {t c k : Bytes}
        → IsTag t
        → NoSlash t
        → IsContent c
        → IsTag k
        → NoSlash k
        → IsElement (b'<' ∷ (t ++ (b'>' ∷ (c ++ (b'<' ∷ b'/' ∷ (k ++ (b'>' ∷ [])))))))

  pub data IsContent : Bytes → Type 0 where
    nothing : IsContent []
    text : {c : ℕ} {cs : Bytes} → c ≢ b'<' → IsContent cs → IsContent (c ∷ cs)
    cdata :
        (body : Bytes) {cs : Bytes}
        → NoCdataEnd body
        → IsContent cs
        → IsContent (b'<' ∷ b'!' ∷ (cdata_open ++ (body ++ (cdata_close ++ cs))))
    child : {e cs : Bytes} → IsElement e → IsContent cs → IsContent (e ++ cs)
