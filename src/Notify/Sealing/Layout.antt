-- ===== src/Notify/Sealing/Layout.antt =====
-- internal/sealed/sealed.go: Open finds again what Seal lays out.
use go_tangra_notification.Prelude.{
  ℕ, zero, suc, ◌≡◌, refl, ◌+◌, ap, ◌∙◌, false, some, List, [], ◌∷◌, ◌++◌, String, ltb, length,
  take, drop, ok, arith, Result-cases, inl, inr,
}
use go_tangra_notification.Notify.Settings.{Aead, Codec}
use go_tangra_notification.Notify.Envelope.{sealed_bytes, seal, unseal_rest, unseal}

-- What crypto/cipher documents of GCM: nonces of 12 bytes, a tag of 16, and that Open with the nonce
-- and the associated data of Seal gives the text back.
pub record IsGcm (a : Aead) : Type 0 where
  pub nonce : a.nonce_size ≡ 12
  pub tag : a.overhead ≡ 16
  pub sized : (n t : List ℕ) (ad : String) → length n ≡ 12 → length (a.seal n t ad) ≡ length t + 16
  pub inverse :
      (n t : List ℕ) (ad : String) → length n ≡ 12 → a.unseal n (a.seal n t ad) ad ≡ some t

-- A read of the random source that succeeds gives as many bytes as it was asked for.
abbrev pub Reads : Codec → Type 0
Reads c = (seed i n : ℕ) (b : List ℕ) → c.random seed i n ≡ ok b → length b ≡ n

length-append : (xs ys : List ℕ) → length (xs ++ ys) ≡ length xs + length ys
length-append [] ys = ground arith
length-append (x ∷ xs) ys = ground (arith, length-append xs ys)

take-append : (xs ys : List ℕ) (n : ℕ) → length xs ≡ n → take n (xs ++ ys) ≡ xs
take-append [] ys zero h = refl
take-append [] ys (suc n) h = ground (arith, h)
take-append (x ∷ xs) ys zero h = ground (arith, h)
take-append (x ∷ xs) ys (suc n) h = ap (λ zs. x ∷ zs) (take-append xs ys n (ground (arith, h)))

drop-append : (xs ys : List ℕ) (n : ℕ) → length xs ≡ n → drop n (xs ++ ys) ≡ ys
drop-append [] ys zero h = refl
drop-append [] ys (suc n) h = ground (arith, h)
drop-append (x ∷ xs) ys zero h = ground (arith, h)
drop-append (x ∷ xs) ys (suc n) h = drop-append xs ys n (ground (arith, h))

drop_both : (xs ys zs : List ℕ) (n : ℕ) → length xs + length ys ≡ n → drop n (xs ++ (ys ++ zs)) ≡ zs
drop_both [] ys zs n h = drop-append ys zs n (ground (arith, h))
drop_both (x ∷ xs) ys zs zero h = ground (arith, h)
drop_both (x ∷ xs) ys zs (suc n) h = drop_both xs ys zs n (ground (arith, h))

module _ (c : Codec) (g : IsGcm c.kek) (gs : (dek : List ℕ) → IsGcm (c.gcm dek)) where
  unseal-sealed_bytes :
      (dek n1 n2 t : List ℕ) (ad : String)
      → length dek ≡ 32
      → length n1 ≡ 12
      → length n2 ≡ 12
      → unseal c (sealed_bytes c dek n1 n2 t ad) ad ≡ ok t
  unfolding unseal unseal_rest sealed_bytes
  unseal-sealed_bytes dek n1 n2 t ad d l1 l2 =
      let wrapped = c.kek.seal n1 dek ad in
      let body = (c.gcm dek).seal n2 t ad in
      let w : length wrapped ≡ 48 = ground (arith, g.sized n1 dek ad l1, d) in
      let b : length body ≡ length t + 16 = (gs dek).sized n2 t ad l2 in
      let total : ltb (length (n1 ++ (wrapped ++ (n2 ++ body)))) 88 ≡ false = ground (
        arith,
        length-append n1 (wrapped ++ (n2 ++ body)),
        length-append wrapped (n2 ++ body),
        length-append n2 body,
        w,
        b,
        l1,
        l2,
      ) in
      rw
        (
          g.nonce,
          g.tag,
          total,
          take-append n1 (wrapped ++ (n2 ++ body)) 12 l1,
          drop-append n1 (wrapped ++ (n2 ++ body)) 12 l1,
          take-append wrapped (n2 ++ body) 48 w,
          drop_both n1 wrapped (n2 ++ body) 60 (ground (arith, l1, w)),
          g.inverse n1 dek ad l1,
          take-append n2 body 12 l2,
          drop-append n2 body 12 l2,
          (gs dek).inverse n2 t ad l2,
        )
        refl

  pub unseal-seal :
      Reads c
      → (seed : ℕ) (t : List ℕ) (ad : String) (b : List ℕ) → seal c seed t ad ≡ ok b
      → unseal c b ad ≡ ok t
  unfolding seal
  unseal-seal r seed t ad b h = elim (Result-cases (c.random seed 0 32)) [
    | inr (e, x) ↦ ground (arith, x, h)
    | inl (dek, x) ↦ elim (Result-cases (c.random seed 1 c.kek.nonce_size)) [
      | inr (e, y) ↦ ground (arith, x, y, h)
      | inl (n1, y) ↦ elim (Result-cases (c.random seed 2 c.kek.nonce_size)) [
        | inr (e, z) ↦ ground (arith, x, y, z, h)
        | inl (n2, z) ↦ ground (
          arith,
          x,
          y,
          z,
          h,
          unseal-sealed_bytes dek n1 n2 t ad (r seed 0 32 dek x)
              (r seed 1 c.kek.nonce_size n1 y ∙ g.nonce) (r seed 2 c.kek.nonce_size n2 z ∙ g.nonce),
        )
      ]
    ]
  ]
