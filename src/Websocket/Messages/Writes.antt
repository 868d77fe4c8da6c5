-- ===== src/Websocket/Messages/Writes.antt =====
-- What `write_all` and `flush` send, over a stream of bytes and over a websocket.
use xmpp_proxy.Prelude.{
  ℕ, ◌≡◌, refl, sym, ◌∙◌, subst, Bool, Bytes, [], ◌∷◌, ◌++◌, Option, none, some, Outcome, ok, ◌>>=◌,
  ok-of_>>=, ok-inj,
}
use xmpp_proxy.Wire.{Sink, write_all, flush, write_all-sent, flush-sent}
use xmpp_proxy.Websocket.Framing.{to_ws_new}
use xmpp_proxy.Websocket.Messages.{
  text, WsWr, StanzaWrite, async_write, web_socket_client_write, feed, ws_flush,
  without_declaration, feed_stanza, write_stanza, flush_stanza,
}
use xmpp_proxy.Websocket.Messages.Reads.{feed_left-sent}

-- The writer `w` has sent the stanza and become `v`. Over a websocket it is one message, with the
-- namespaces that this framing asks for; a declaration in front of it is left out, and so is one
-- that stands alone.
pub data Sends (is_c2s : Bool) (buf : Bytes) (e : ℕ) : StanzaWrite → StanzaWrite → Type 0 where
  as_bytes :
      {s t : Sink} → t.sent ≡ s.sent ++ buf → Sends is_c2s buf e (async_write s) (async_write t)
  as_message :
      {s t : WsWr} {stanza message : Bytes}
      → without_declaration buf ≡ some stanza
      → to_ws_new stanza e is_c2s ≡ ok message
      → t.sent ≡ s.sent ++ text message ∷ []
      → Sends is_c2s buf e (web_socket_client_write s) (web_socket_client_write t)
  left_out :
      {s t : WsWr}
      → without_declaration buf ≡ none
      → t.sent ≡ s.sent
      → Sends is_c2s buf e (web_socket_client_write s) (web_socket_client_write t)

-- `write_all(..).await?; flush().await?`
abbrev pub write_flush_stanza : Bool → Bytes → ℕ → StanzaWrite → Outcome StanzaWrite
write_flush_stanza is_c2s buf e w = write_stanza is_c2s buf e w >>= flush_stanza

module _ (is_c2s : Bool) (buf : Bytes) (e : ℕ) where
  flushed :
      (s u : WsWr) (v : StanzaWrite)
      → ok v ≡ flush_stanza (web_socket_client_write u)
      → (t : WsWr) × (v ≡ web_socket_client_write t) × (t.sent ≡ u.sent)
  unfolding flush_stanza
  flushed s u v h =
      let (t, q, f) = ok-of_>>= (λ w. ok (web_socket_client_write w)) (ws_flush u) h in
      (t, ok-inj q, feed_left-sent u.calls u.sent t (sym f))

  feed_stanza-Sends :
      (o : Option Bytes) (s : WsWr) (v : StanzaWrite)
      → without_declaration buf ≡ o
      → ok v ≡ (feed_stanza o e is_c2s s >>= flush_stanza)
      → Sends is_c2s buf e (web_socket_client_write s) v
  feed_stanza-Sends none s v d h =
      let (t, q, sent) = flushed s s v h in
      subst (Sends is_c2s buf e (web_socket_client_write s)) (sym q) (left_out d sent)
  feed_stanza-Sends (some stanza) s v d h =
      let (w, h₁, p) = ok-of_>>= flush_stanza (feed_stanza (some stanza) e is_c2s s) h in
      let (message, h₂, m) = ok-of_>>= _ (to_ws_new stanza e is_c2s) (sym p) in
      let (u, h₃, f) = ok-of_>>= _ (feed (text message) s) h₂ in
      let (t, q, sent) = flushed s u v (subst (λ x. ok v ≡ flush_stanza x) (ok-inj h₃) h₁) in
      subst (Sends is_c2s buf e (web_socket_client_write s)) (sym q)
        (as_message d m (sent ∙ feed_left-sent s.calls (s.sent ++ text message ∷ []) u (sym f)))

  -- A stanza that is written and flushed is sent once, and nothing else is.
  pub write_flush_stanza-Sends :
      (w v : StanzaWrite) → ok v ≡ write_flush_stanza is_c2s buf e w → Sends is_c2s buf e w v
  unfolding write_stanza flush_stanza
  write_flush_stanza-Sends (async_write s) v h =
      let (w, h₁, p) = ok-of_>>= flush_stanza (write_all buf s >>= λ t. ok (async_write t)) h in
      let (u, h₂, f) = ok-of_>>= (λ t. ok (async_write t)) (write_all buf s) (sym p) in
      let (t, h₃, g) =
        ok-of_>>= (λ t. ok (async_write t)) (flush u)
          (subst (λ x. ok v ≡ flush_stanza x) (ok-inj h₂) h₁) in
      subst (Sends is_c2s buf e (async_write s)) (sym (ok-inj h₃))
        (as_bytes (flush-sent u t (sym g) ∙ write_all-sent buf s u (sym f)))
  write_flush_stanza-Sends (web_socket_client_write s) v h =
      feed_stanza-Sends (without_declaration buf) s v refl h
