-- ===== src/Srv/Posh/Valid.antt =====
-- Which certificates a collected `Posh` accepts, and until when.
use xmpp_proxy.Prelude.{
  ℕ, ◌≤◌, ◌≡◌, ◌⊎◌, inl, inr, ◌↔◌, refl, sym, subst, true, not, ◌&&◌, ◌||◌, Bool-cases, Bytes,
  bytes_eq, bytes_eq_iff, List, [], ◌∷◌, ◌++◌, arith,
}
use xmpp_proxy.Srv.Sort.{
  Among, first, later, sort_by, dedup, contains, Among-sort_by, sort_by-Among, dedup-Among,
  Kept-dedup,
}
use xmpp_proxy.Srv.Order.{compare_bytes}
use xmpp_proxy.Srv.Posh.{
  Digests, Posh, least, combine_uniq, append_posh, is_empty, digest, valid_cert,
}

pub contains-Among : (xs : List Bytes) (a : Bytes) → contains bytes_eq xs a ≡ true → Among a xs
unfolding contains
contains-Among [] a h = cc
contains-Among (x ∷ xs) a h = elim (Bool-cases (bytes_eq x a)) [
  | inl e ↦ subst (λ y. Among y (x ∷ xs)) ((bytes_eq_iff x a).0 e) first
  | inr n ↦ later (contains-Among xs a (subst (λ b. (b || contains bytes_eq xs a) ≡ true) n h))
]

pub Among-contains : {a : Bytes} {xs : List Bytes} → Among a xs → contains bytes_eq xs a ≡ true
unfolding contains
Among-contains {a = a} first = rw ((bytes_eq_iff a a).1 refl) refl
Among-contains {a = a} (later {y = x} {xs = xs} m) = elim (Bool-cases (bytes_eq x a)) [
  | inl e ↦ rw e refl
  | inr n ↦ rw n (Among-contains m)
]

Among-append :
    (xs : List Bytes) {ys : List Bytes} {a : Bytes} → Among a (xs ++ ys) → Among a xs ⊎ Among a ys
Among-append [] m = inr m
Among-append (x ∷ xs) first = inl first
Among-append (x ∷ xs) (later m) = elim (Among-append xs m) [ inl l ↦ inl (later l) | inr r ↦ inr r ]

append-Among :
    (xs : List Bytes) {ys : List Bytes} {a : Bytes} → Among a xs ⊎ Among a ys → Among a (xs ++ ys)
append-Among [] (inl m) = elim m [ ]
append-Among [] (inr m) = m
append-Among (x ∷ xs) (inl first) = first
append-Among (x ∷ xs) (inl (later m)) = later (append-Among xs (inl m))
append-Among (x ∷ xs) (inr m) = later (append-Among xs (inr m))

combine_uniq-Among :
    (xs ys : List Bytes) (a : Bytes) → Among a (combine_uniq xs ys) ↔ (Among a xs ⊎ Among a ys)
unfolding combine_uniq
combine_uniq-Among xs ys a =
    let all = sort_by compare_bytes (xs ++ ys) in
    (
      (λ m.
          Among-append xs
            (sort_by-Among compare_bytes a (xs ++ ys) (dedup-Among bytes_eq a all m))),
      (λ m.
          let (b, n, e) =
            Kept-dedup bytes_eq a all
              (Among-sort_by compare_bytes a (xs ++ ys) (append-Among xs m)) in
          subst (λ c. Among c (dedup bytes_eq all)) (sym (same e)) n),
    )
  where
    same : {b : Bytes} → (bytes_eq a b ≡ true) ⊎ (a ≡ b) → a ≡ b
    same {b} (inl e) = (bytes_eq_iff a b).0 e
    same (inr e) = e

-- the two hashes of the certificate are what decides
abbrev pub Listed : Digests → Posh → Bytes → Type 0
Listed d p cert =
    Among (digest d d.sha_256 cert) p.sha_256_fingerprints
    ⊎ Among (digest d d.sha_512 cert) p.sha_512_fingerprints

some-Among :
    (xs : List Bytes) (a : Bytes)
    → (not (is_empty xs) && contains bytes_eq xs a) ≡ true
    → Among a xs
some-Among [] a h = cc
some-Among (x ∷ xs) a h = contains-Among (x ∷ xs) a h

Among-some :
    {xs : List Bytes} {a : Bytes}
    → Among a xs
    → (not (is_empty xs) && contains bytes_eq xs a) ≡ true
Among-some first = Among-contains first
Among-some (later m) = Among-contains (later m)

pub valid_cert-Listed :
    (d : Digests) (p : Posh) (cert : Bytes) → (valid_cert d p cert ≡ true) ↔ Listed d p cert
unfolding valid_cert
valid_cert-Listed d p cert =
    let in_256 =
      not (is_empty p.sha_256_fingerprints)
      && contains bytes_eq p.sha_256_fingerprints (digest d d.sha_256 cert) in
    (
      (λ h. elim (Bool-cases in_256) [
        | inl e ↦ inl (some-Among p.sha_256_fingerprints _ e)
        | inr n ↦ inr (
            some-Among p.sha_512_fingerprints _ (
              subst
                (λ b.
                  (b
                    || (not (is_empty p.sha_512_fingerprints)
                        && contains bytes_eq p.sha_512_fingerprints (digest d d.sha_512 cert)))
                  ≡ true)
                n h))
      ]),
      (λ m. elim m [
        | inl l ↦ rw (Among-some l) refl
        | inr r ↦ elim (Bool-cases in_256) [ inl e ↦ rw e refl | inr n ↦ rw n (Among-some r) ]
      ]),
    )

least_le_left : (a b : ℕ) → least a b ≤ a
unfolding least
least_le_left a b = ground arith

least_le_right : (a b : ℕ) → least a b ≤ b
unfolding least
least_le_right a b = ground arith

-- The fingerprints of two services together accept exactly the certificates that either accepts,
-- and expire with the first of them.
pub append_posh_iff :
    (d : Digests) (p q : Posh) (cert : Bytes)
    → ((valid_cert d (append_posh p q) cert ≡ true)
        ↔ ((valid_cert d p cert ≡ true) ⊎ (valid_cert d q cert ≡ true)))
      × ((append_posh p q).expires ≤ p.expires)
      × ((append_posh p q).expires ≤ q.expires)
unfolding append_posh
append_posh_iff d p q cert =
    let both = append_posh p q in
    (
      (
        (λ h. elim ((valid_cert-Listed d both cert).0 h) [
          | inl m ↦
              elim ((combine_uniq-Among p.sha_256_fingerprints q.sha_256_fingerprints _).0 m) [
                | inl l ↦ inl ((valid_cert-Listed d p cert).1 (inl l))
                | inr r ↦ inr ((valid_cert-Listed d q cert).1 (inl r))
              ]
          | inr m ↦
              elim ((combine_uniq-Among p.sha_512_fingerprints q.sha_512_fingerprints _).0 m) [
                | inl l ↦ inl ((valid_cert-Listed d p cert).1 (inr l))
                | inr r ↦ inr ((valid_cert-Listed d q cert).1 (inr r))
              ]
        ]),
        (λ h. (valid_cert-Listed d both cert).1 (elim h [
          | inl l ↦ elim ((valid_cert-Listed d p cert).0 l) [
            | inl m ↦
                inl ((combine_uniq-Among p.sha_256_fingerprints q.sha_256_fingerprints _).1 (inl m))
            | inr m ↦
                inr ((combine_uniq-Among p.sha_512_fingerprints q.sha_512_fingerprints _).1 (inl m))
          ]
          | inr r ↦ elim ((valid_cert-Listed d q cert).0 r) [
            | inl m ↦
                inl ((combine_uniq-Among p.sha_256_fingerprints q.sha_256_fingerprints _).1 (inr m))
            | inr m ↦
                inr ((combine_uniq-Among p.sha_512_fingerprints q.sha_512_fingerprints _).1 (inr m))
          ]
        ])),
      ),
      least_le_left p.expires q.expires,
      least_le_right p.expires q.expires,
    )
