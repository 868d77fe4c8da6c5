-- ===== src/Filter/Reader.antt =====
-- `StanzaReader`: a stream is the bytes that it still gives and how it ends. Each read asks for one
-- byte, into the place of the filter's buffer that `current_buf` lends.
use xmpp_proxy.Prelude.{
  ℕ, ltb, Bytes, length, set, take, [], ◌∷◌, Option, none, some, Outcome, ok, err, panic, io_error,
  if◌then◌else◌,
}
use xmpp_proxy.Filter.{StanzaFilter, process_next_byte_idx}

-- at the end of the stream a read gives no byte, or fails
pub data Ending : Type 0 where
  eof broken : Ending

-- what a call comes to, the filter that it leaves, and the bytes not yet read
pub record Read {ℓ} (A : Type ℓ) : Type ℓ where
  pub result : Outcome (Option A)
  pub filter : StanzaFilter
  pub rest : Bytes

abbrev pub end_result {ℓ} : {A : Type ℓ} → Ending → Outcome (Option A)
end_result eof = ok none
end_result broken = err io_error

-- the read of one byte through `current_buf`
abbrev pub write_byte : StanzaFilter → ℕ → StanzaFilter
write_byte f b = record f { buf = set f.buf f.cnt b }

-- the result behind the stanza, or the reads that follow
abbrev pub deliver {ℓ} :
    {A : Type ℓ}
    → (StanzaFilter → ℕ → A × StanzaFilter)
    → Outcome (Option ℕ)
    → StanzaFilter
    → Bytes
    → Read A
    → Read A
deliver emit (ok (some idx)) f rest more =
    let (a, g) = emit f idx in record { result = ok (some a); filter = g; rest = rest }
deliver emit (ok none) f rest more = more
deliver emit (err e) f rest more = record { result = err e; filter = f; rest = rest }
deliver emit panic f rest more = record { result = panic; filter = f; rest = rest }

module _ {ℓ} {A : Type ℓ} (emit : StanzaFilter → ℕ → A × StanzaFilter) where
  -- the `loop`, with what is made of the filter and the index at a stanza's end
  unfoldable pub read_loop : StanzaFilter → Bytes → Ending → Read A
  read_loop f [] ending =
      if ltb f.cnt (length f.buf)
      then record { result = end_result ending; filter = f; rest = [] }
      else record { result = panic; filter = f; rest = [] }
  read_loop f (b ∷ rest) ending =
      let (r, g) = process_next_byte_idx (write_byte f b) in
      let more = read_loop g rest ending in
      if ltb f.cnt (length f.buf)
      then deliver emit r g rest more
      else record { result = panic; filter = f; rest = b ∷ rest }

-- `StanzaReader::next`
abbrev pub emit_stanza : StanzaFilter → ℕ → Bytes × StanzaFilter
emit_stanza f idx = (take idx f.buf, f)

unfoldable pub next : StanzaFilter → Bytes → Ending → Read Bytes
unfolding read_loop
next = read_loop emit_stanza

-- `StanzaReader::next_eoft`
abbrev pub emit_eoft : StanzaFilter → ℕ → (Bytes × ℕ) × StanzaFilter
emit_eoft f idx = ((take idx f.buf, f.end_of_first_tag), record f { end_of_first_tag = 0 })

unfoldable pub next_eoft : StanzaFilter → Bytes → Ending → Read (Bytes × ℕ)
unfolding read_loop
next_eoft = read_loop emit_eoft
