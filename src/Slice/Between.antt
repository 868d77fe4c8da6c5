-- ===== src/Slice/Between.antt =====
-- `extract_between` with a closing needle of one byte, as every caller has it.
use xmpp_proxy.Prelude.{
  ℕ, ◌+◌, ◌-◌, ◌≡◌, ◌↔◌, sym, ap, ◌∙◌, subst, Bytes, length, take, drop, [], ◌∷◌, ok, ok-of_>>=,
  arith, false, ◌==◌,
}
use xmpp_proxy.Slice.{first_index_of, cut_end, extract_between}
use xmpp_proxy.Slice.Search.{
  OccursAt, FirstAt, FirstAt-of_ok, first_index_of-FirstAt, take-OccursAt, drop-OccursAt,
}

-- `mid` lies between the first `before` of `s` and the first `close` behind it.
pub record IsBetween (s before : Bytes) (close : ℕ) (mid : Bytes) : Type 0 where
  pub start : ℕ
  pub opened : FirstAt s before start
  pub closed : FirstAt opened.occurs.after (close ∷ []) (length mid)
  pub is_mid : closed.occurs.before ≡ mid

cut_end_one : (j : ℕ) (first : Bytes) → cut_end j 1 first ≡ ok (take j first)
unfolding cut_end
cut_end_one j first =
    let e : j + 1 - 1 ≡ j = omega arith in let f : (j + 1 == 0) ≡ false = ground arith in rw (f, e)

take-eq_of_ok : (j : ℕ) (first mid : Bytes) → cut_end j 1 first ≡ ok mid → take j first ≡ mid
take-eq_of_ok j first mid e = cc (cut_end_one j first)

module _ (s before : Bytes) (close : ℕ) where
  closed_at :
      {mid : Bytes} {first : Bytes} (j : ℕ)
      → FirstAt first (close ∷ []) j
      → take j first ≡ mid
      → (f : FirstAt first (close ∷ []) (length mid)) × (f.occurs.before ≡ mid)
  closed_at {mid} {first} j f e =
      let is_mid : f.occurs.before ≡ mid = sym (take-OccursAt f.occurs) ∙ e in
      let o : OccursAt first (close ∷ []) (length mid) = record {
        before = f.occurs.before;
        after = f.occurs.after;
        splits = f.occurs.splits;
        place = ap length is_mid;
      } in
      (
        record {
          occurs = o;
          first = λ k l. f.first k (omega (arith, f.occurs.place, ap length is_mid));
        },
        is_mid,
      )

  IsBetween-of_ok :
      (mid : Bytes) → extract_between s before (close ∷ []) ≡ ok mid → IsBetween s before close mid
  unfolding extract_between
  IsBetween-of_ok mid e =
      let (i, e₁, at_i) = ok-of_>>= _ (first_index_of s before) (sym e) in
      let (j, e₂, at_j) =
        ok-of_>>= _ (first_index_of (drop (i + length before) s) (close ∷ [])) e₁ in
      let opened = FirstAt-of_ok at_i in
      let cut = drop-OccursAt opened.occurs in
      let taken = take-eq_of_ok j (drop (i + length before) s) mid (sym e₂) in
      let (closed, is_mid) =
        closed_at j (FirstAt-of_ok (subst (λ t. first_index_of t (close ∷ []) ≡ ok j) cut at_j))
          (subst (λ t. take j t ≡ mid) cut taken) in
      record { start = i; opened = opened; closed = closed; is_mid = is_mid }

  extract_between-of_IsBetween :
      (mid : Bytes) → IsBetween s before close mid → extract_between s before (close ∷ []) ≡ ok mid
  unfolding extract_between
  extract_between-of_IsBetween mid b =
      rw
        (
          first_index_of-FirstAt b.opened,
          drop-OccursAt b.opened.occurs,
          first_index_of-FirstAt b.closed,
        )
        (cut_end_one (length mid) b.opened.occurs.after
          ∙ ap ok (take-OccursAt b.closed.occurs ∙ b.is_mid))

  -- With a closing needle of one byte, `extract_between` returns exactly what lies between the
  -- first `before` and the first `close` behind it.
  pub extract_between_iff :
      (mid : Bytes)
      → (extract_between s before (close ∷ []) ≡ ok mid) ↔ IsBetween s before close mid
  extract_between_iff mid = (IsBetween-of_ok mid, extract_between-of_IsBetween mid)
