-- ===== src/Messages/Leases.antt =====
-- internal/memstore/memstore.go: the claims of due messages and their leases.
use go_tangra_notification.Prelude.{
  ℕ, ◌+◌, ◌-◌, ◌≤◌, ◌≡◌, ◌⊎◌, inl, inr, true, false, some, [], ◌∷◌, String, arith, lookup, Table,
  Bool-cases, Option-cases, not, ◌&&◌, nat_eq, if◌then◌else◌, length,
}
use go_tangra_notification.Store.{Message}
use go_tangra_notification.Memstore.{Store, failing}
use go_tangra_notification.Memstore.Messages.{claim, claimable, claimed, claim_due_messages}

claim-lookup :
    (now lease left : ℕ) (k : String) (t : Table Message) {x : Message}
    → lookup k t ≡ some x
    → (lookup k (claim now lease left t).1 ≡ some x)
      ⊎ ((claimable now x ≡ true)
          × (lookup k (claim now lease left t).1 ≡ some (claimed now lease x)))
unfolding claim lookup
claim-lookup now lease left k [] h = cc
claim-lookup now lease left k ((j, y) ∷ t) {x} h =
    elim (Bool-cases (not (nat_eq left 0) && claimable now y)) [
      | inl hit ↦ ground (arith, h, hit, claim-lookup now lease (left - 1) k t {x = x})
      | inr miss ↦ ground (arith, h, miss, claim-lookup now lease left k t {x = x})
    ]

lease_holds :
    (now lease t : ℕ) (x : Message) → t ≤ now + lease → claimable t (claimed now lease x) ≡ false
unfolding claimable claimed
lease_holds now lease t x h = ground (arith, h)

-- A claim leaves a message as it is, or the message was due and is now in the state of one claimed,
-- and then it can not be claimed again at any time up to the end of the lease.
pub claim_due_messages_lem :
    (now lease limit t : ℕ) (m : Store) (id : String) (x : Message)
    → lookup id m.messages ≡ some x
    → t ≤ now + lease
    → let m' = (claim_due_messages now lease limit m).1 in
      (lookup id m'.messages ≡ some x)
      ⊎ ((claimable now x ≡ true)
          × (lookup id m'.messages ≡ some (claimed now lease x))
          × (claimable t (claimed now lease x) ≡ false))
unfolding claim_due_messages failing
claim_due_messages_lem now lease limit t m id x at h =
    elim (Option-cases (lookup "ClaimDueMessages" m.fail)) [
      | inr (e, f) ↦ inl (rw (f, claim_due_messages, failing) at)
      | inl f ↦
          let left = if nat_eq limit 0 then length m.messages else limit in
          elim (claim-lookup now lease left id m.messages at) [
            | inl same ↦ inl (rw (f, claim_due_messages, failing) same)
            | inr (due, there) ↦
                inr (due, rw (f, claim_due_messages, failing) there, lease_holds now lease t x h)
          ]
    ]
