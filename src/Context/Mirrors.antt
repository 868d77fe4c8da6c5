-- ===== src/Context/Mirrors.antt =====
-- The log lines of the two directions of a connection.
use xmpp_proxy.Prelude.{
  ℕ, ◌≡◌, refl, sym, ap, ◌∙◌, Bool, true, false, ◌==◌, if◌then◌else◌, Bytes, codes, starts_with,
  List, [], ◌∷◌, ◌++◌, arith,
}
use xmpp_proxy.Filter.Stanza.{Avoids, none_left, other}
use xmpp_proxy.Websocket.Text.{replace, replace_from}
use xmpp_proxy.Context.{
  Context, from_arrow, to_arrow, new_line, re_calc, new, set_proto, set_c2s_stream_open,
  set_to_addr, Call, with_proto, with_stream_open, with_to_addr, called, after_calls,
}

-- A text begins with no arrow where its third byte would have to be a ">".
no_arrow-before :
    (x : ℕ) (xs rest : Bytes)
    → Avoids b'>' (x ∷ xs)
    → starts_with (x ∷ (xs ++ (from_arrow ++ rest))) from_arrow ≡ false
unfolding starts_with
no_arrow-before x [] rest a = ground arith
no_arrow-before x (y ∷ []) rest a = ground arith
no_arrow-before x (y ∷ z ∷ xs) rest (other _ (other _ (other n _))) = ground arith

no_arrow-in : (x : ℕ) (xs : Bytes) → Avoids b'>' (x ∷ xs) → starts_with (x ∷ xs) from_arrow ≡ false
unfolding starts_with
no_arrow-in x [] a = ground arith
no_arrow-in x (y ∷ []) a = ground arith
no_arrow-in x (y ∷ z ∷ xs) (other _ (other _ (other n _))) = ground arith

abbrev mirrored : Bytes → Bytes
mirrored s = replace s from_arrow to_arrow

-- what stands before an arrow stays, and the arrow is turned
turn_arrow :
    (s rest : Bytes)
    → Avoids b'>' s
    → mirrored (s ++ (from_arrow ++ rest)) ≡ s ++ (to_arrow ++ mirrored rest)
unfolding replace replace_from starts_with
turn_arrow [] rest a = refl
turn_arrow (x ∷ xs) rest (other n a) =
    rw (no_arrow-before x xs rest (other n a)) (ap (◌∷◌ x) (turn_arrow xs rest a))

keep_text : (s : Bytes) → Avoids b'>' s → mirrored s ≡ s
unfolding replace replace_from
keep_text [] a = refl
keep_text (x ∷ xs) (other n a) = rw (no_arrow-in x xs (other n a)) (ap (◌∷◌ x) (keep_text xs a))

Avoids-append : {c : ℕ} {s t : Bytes} → Avoids c s → Avoids c t → Avoids c (s ++ t)
Avoids-append none_left b = b
Avoids-append (other n a) b = other n (Avoids-append a b)

-- a check of a text that is given
abbrev pub lacks : ℕ → Bytes → Bool
lacks c [] = true
lacks c (x ∷ xs) = if x == c then false else lacks c xs

pub lacks-Avoids : (c : ℕ) (s : Bytes) → lacks c s ≡ true → Avoids c s
lacks-Avoids c [] h = none_left
lacks-Avoids c (x ∷ xs) h = other (λ e. ground arith) (lacks-Avoids c xs (ground arith))

new_line-mirrored :
    (conn_id client_addr proto : Bytes)
    → Avoids b'>' conn_id
    → Avoids b'>' client_addr
    → Avoids b'>' proto
    → mirrored (new_line conn_id client_addr from_arrow proto)
      ≡ new_line conn_id client_addr to_arrow proto
new_line-mirrored conn_id client_addr proto a b c =
    let opening = lacks-Avoids b'>' (codes ": (") refl in
    let bracket = lacks-Avoids b'>' (codes "(") refl in
    let closing = lacks-Avoids b'>' (codes "-unk)):") refl in
    turn_arrow (conn_id ++ (codes ": (" ++ client_addr)) (codes "(" ++ (proto ++ codes "-unk)):"))
      (Avoids-append a (Avoids-append opening b))
    ∙ ap (λ t. (conn_id ++ (codes ": (" ++ client_addr)) ++ (to_arrow ++ t))
        (keep_text (codes "(" ++ (proto ++ codes "-unk)):"))
          (Avoids-append bracket (Avoids-append c closing)))

-- The lines differ in the arrows alone, and name the connection and its peer.
pub record Mirrors (conn_id client_addr : Bytes) (c : Context) : Type 0 where
  pub turned : c.log_to ≡ replace c.log_from from_arrow to_arrow
  pub same_id : c.conn_id ≡ conn_id
  pub same_peer : c.client_addr ≡ client_addr

module _ (info : Bool) (to_str : Bytes → Bytes) where
  new-Mirrors :
      (conn_id proto client_addr : Bytes)
      → Avoids b'>' conn_id
      → Avoids b'>' client_addr
      → Avoids b'>' proto
      → Mirrors
          (if info then conn_id else [])
          client_addr
          (new info to_str conn_id proto client_addr)
  unfolding new
  new-Mirrors conn_id proto client_addr a b c = record {
    turned = by_level info;
    same_id = refl;
    same_peer = refl;
  }
    where
      by_level :
          (i : Bool)
          → (if i then new_line conn_id client_addr to_arrow proto else [])
            ≡ replace
                (if i then new_line conn_id client_addr from_arrow proto else [])
                from_arrow
                to_arrow
      by_level true = sym (new_line-mirrored conn_id client_addr proto a b c)
      by_level false = sym (keep_text [] none_left)

  -- a setter keeps the connection's identity, and where it changes the lines it turns them anew
  abbrev Turned : Context → Context → Type 0
  Turned c d =
      (c.log_to ≡ mirrored c.log_from → d.log_to ≡ mirrored d.log_from)
      × (d.conn_id ≡ c.conn_id)
      × (d.client_addr ≡ c.client_addr)

  re_calc_if-Turned :
      (b : Bool) (c d : Context)
      → d.conn_id ≡ c.conn_id
      → d.client_addr ≡ c.client_addr
      → Turned c (if b then re_calc d else c)
  unfolding re_calc
  re_calc_if-Turned true c d p q = ((λ h. refl), p, q)
  re_calc_if-Turned false c d p q = ((λ h. h), refl, refl)

  called-Turned : (call : Call info to_str) (c : Context) → Turned c (called info to_str call c)
  unfolding set_proto set_c2s_stream_open set_to_addr
  called-Turned (with_proto p) c = re_calc_if-Turned info c _ refl refl
  called-Turned (with_stream_open is_c2s stream_open) c = re_calc_if-Turned info c _ refl refl
  called-Turned (with_to_addr a) c = re_calc_if-Turned info c _ refl refl

  after_calls-keeps :
      {conn_id client_addr : Bytes} (calls : List (Call info to_str)) (c : Context)
      → Mirrors conn_id client_addr c
      → Mirrors conn_id client_addr (after_calls info to_str calls c)
  after_calls-keeps [] c m = m
  after_calls-keeps (call ∷ calls) c m =
      let (turned, same_id, same_peer) = called-Turned call c in
      after_calls-keeps calls (called info to_str call c) (record {
        turned = turned m.turned;
        same_id = same_id ∙ m.same_id;
        same_peer = same_peer ∙ m.same_peer;
      })

  -- Whatever a connection tells its context, and whether or not anything is logged: the lines of the
  -- two directions differ in the arrows alone, and name the same connection and the same peer. The
  -- random name, the peer's address and the protocol that the context begins with hold no ">".
  pub after_calls-Mirrors :
      (conn_id proto client_addr : Bytes) (calls : List (Call info to_str))
      → Avoids b'>' conn_id
      → Avoids b'>' client_addr
      → Avoids b'>' proto
      → Mirrors
          (if info then conn_id else [])
          client_addr
          (after_calls info to_str calls (new info to_str conn_id proto client_addr))
  after_calls-Mirrors conn_id proto client_addr calls a b c =
      after_calls-keeps calls (new info to_str conn_id proto client_addr)
        (new-Mirrors conn_id proto client_addr a b c)
