-- ===== src/Notify/Envelope.antt =====
-- internal/sealed/sealed.go: Envelope, which seals the settings under a key of their own that the
-- master key wraps.
use go_tangra_notification.Prelude.{
  ℕ, ◌+◌, Option, none, some, List, ◌++◌, String, if◌then◌else◌, ltb, length, take, drop, Result,
  ok, err, injected, settings_size, bind_result,
}
use go_tangra_notification.Notify.Settings.{Codec, max_settings_bytes}

module _ (c : Codec) where
  -- The sealed bytes under three random texts: the data key and two nonces.
  unfoldable pub sealed_bytes : List ℕ → List ℕ → List ℕ → List ℕ → String → List ℕ
  sealed_bytes dek n1 n2 plain ad =
      n1 ++ (c.kek.seal n1 dek ad ++ (n2 ++ (c.gcm dek).seal n2 plain ad))

  -- `seed` numbers the seal, of which the random source is read three times.
  unfoldable pub seal : ℕ → List ℕ → String → Result (List ℕ)
  seal seed plain ad =
      if ltb max_settings_bytes (length plain)
      then err settings_size
      else bind_result (c.random seed 0 32) (λ dek.
        bind_result (c.random seed 1 c.kek.nonce_size) (λ n1.
          bind_result (c.random seed 2 c.kek.nonce_size)
            (λ n2. ok (sealed_bytes dek n1 n2 plain ad))))

  abbrev rejected : Option (List ℕ) → Result (List ℕ)
  rejected none = err (injected "sealed: ciphertext rejected")
  rejected (some b) = ok b

  -- What stands behind the wrapped key.
  unfoldable pub unseal_rest : List ℕ → String → List ℕ → Result (List ℕ)
  unseal_rest rest ad dek =
      rejected ((c.gcm dek).unseal (take c.kek.nonce_size rest) (drop c.kek.nonce_size rest) ad)

  unfoldable pub unseal : List ℕ → String → Result (List ℕ)
  unseal blob ad =
      let ns = c.kek.nonce_size in
      let wrap = 32 + c.kek.overhead in
      if ltb (length blob) (ns + wrap + ns + 16)
      then err (injected "sealed: ciphertext rejected")
      else bind_result (rejected (c.kek.unseal (take ns blob) (take wrap (drop ns blob)) ad))
          (unseal_rest (drop (ns + wrap) blob) ad)
