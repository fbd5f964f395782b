-- ===== src/Stream/Hub/Counts.antt =====
-- internal/stream/hub.go: the tenants' streams, their numbers for each user, and the limits.
use go_tangra_notification.Prelude.{
  ℕ, suc, ◌-◌, ◌≤◌, Bool, true, false, [], ◌∷◌, String, if◌then◌else◌, leb, nat_eq, ◌==◌, ==_iff,
  length, all, count, some, ◌≡◌, refl, arith, Bool-cases, inl, inr, subst, ◌∙◌, ap, sym, Table,
  lookup, lookup-insert, lookup-erase,
}
use go_tangra_notification.Stream.Hub.{HubConfig, TenantSub, Subscription}
use go_tangra_notification.Stream.Hub.Queue.{is_sound, fresh-is_sound}
use go_tangra_notification.Stream.Hub.Streams.{
  Conns, find_conn, set_conn, drop_conn, number, streams_of, is_full, with_conn, less_one,
  without_conn,
}

abbrev pub of_user : String → ℕ × Subscription → Bool
of_user user c = c.1.user == user

abbrev pub sound_conn : ℕ × Subscription → Bool
sound_conn c = is_sound c.1

-- The table's number for each user is how many of the tenant's open streams are the user's; both
-- limits hold, and each queue is sound.
pub record IsCounted (cfg : HubConfig) (t : TenantSub) : Type 0 where
  pub counts : (user : String) → streams_of user t ≡ count (of_user user) t.conns
  pub user_bound : (user : String) → streams_of user t ≤ cfg.streams_per_user
  pub tenant_bound : length t.conns ≤ cfg.streams_per_tenant
  pub queues : all sound_conn t.conns ≡ true

module _ (n : ℕ) (x s : Subscription) where
  count-set_conn :
      (cs : Conns) (user : String)
      → find_conn n cs ≡ some s
      → x.user ≡ s.user
      → count (of_user user) (set_conn n x cs) ≡ count (of_user user) cs
  unfolding find_conn set_conn
  count-set_conn [] user h e = refl
  count-set_conn ((k, y) ∷ cs) user h e = elim (Bool-cases (nat_eq k n)) [
    | inl a ↦
        let same : y ≡ s = ground (arith, h, a) in
        let u : x.user ≡ y.user = e ∙ sym (ap (λ z. z.user) same) in rw (a, u) refl
    | inr a ↦ let ih = count-set_conn cs user (ground (arith, h, a)) e in rw a (ground (arith, ih))
  ]

  pub length-set_conn : (cs : Conns) → length (set_conn n x cs) ≡ length cs
  unfolding set_conn
  length-set_conn [] = refl
  length-set_conn ((k, y) ∷ cs) = ground (arith, length-set_conn cs)

  all-set_conn :
      (cs : Conns)
      → is_sound x ≡ true
      → all sound_conn cs ≡ true
      → all sound_conn (set_conn n x cs) ≡ true
  unfolding set_conn
  all-set_conn [] g h = refl
  all-set_conn ((k, y) ∷ cs) g h = ground (arith, g, h, all-set_conn cs)

module _ (n : ℕ) (s : Subscription) where
  count-drop_conn :
      (cs : Conns) (user : String)
      → find_conn n cs ≡ some s
      → count (of_user user) cs ≡ (
          if s.user == user
          then suc (count (of_user user) (drop_conn n cs))
          else count (of_user user) (drop_conn n cs))
  unfolding find_conn drop_conn
  count-drop_conn [] user h = cc
  count-drop_conn ((k, y) ∷ cs) user h = elim (Bool-cases (nat_eq k n)) [
    | inl a ↦ let same : y ≡ s = ground (arith, h, a) in rw (a, same) refl
    | inr a ↦ let ih = count-drop_conn cs user (ground (arith, h, a)) in rw a (ground (arith, ih))
  ]

  length-drop_conn :
      (cs : Conns) → find_conn n cs ≡ some s → length cs ≡ suc (length (drop_conn n cs))
  unfolding find_conn drop_conn
  length-drop_conn [] h = cc
  length-drop_conn ((k, y) ∷ cs) h = ground (arith, h, length-drop_conn cs)

  all-drop_conn : (cs : Conns) → all sound_conn cs ≡ true → all sound_conn (drop_conn n cs) ≡ true
  unfolding drop_conn
  all-drop_conn [] h = refl
  all-drop_conn ((k, y) ∷ cs) h = ground (arith, h, all-drop_conn cs)

  pub found-is_sound :
      (cs : Conns) → find_conn n cs ≡ some s → all sound_conn cs ≡ true → is_sound s ≡ true
  unfolding find_conn
  found-is_sound [] h g = cc
  found-is_sound ((k, y) ∷ cs) h g = elim (Bool-cases (nat_eq k n)) [
    | inl a ↦
        let same : y ≡ s = ground (arith, h, a) in
        subst (λ z. is_sound z ≡ true) same (ground (arith, g))
    | inr a ↦ found-is_sound cs (ground (arith, h, a)) (ground (arith, g))
  ]

-- The number of a user after one stream of `user` closes.
number-less_one :
    (user other : String) (t : Table ℕ)
    → number (lookup other (less_one user t))
      ≡ (if user == other then number (lookup user t) - 1 else number (lookup other t))
unfolding less_one
number-less_one user other t =
    let i = lookup-insert user other (number (lookup user t) - 1) t in
    let e = lookup-erase user other t in
    elim (Bool-cases (leb (number (lookup user t) - 1) 0)) [
      | inl z ↦ rw (z, e) (ground (arith, z))
      | inr z ↦ rw (z, i) (ground (arith, z))
    ]

-- Where there is room, a stream more.
pub with_conn-IsCounted :
    (cfg : HubConfig) (n : ℕ) (user : String) (t : TenantSub)
    → IsCounted cfg t
    → is_full cfg user t ≡ false
    → IsCounted cfg (with_conn n user t)
with_conn-IsCounted cfg n user t v f =
    let i = λ (other : String). lookup-insert user other (suc (streams_of user t)) t.by_user in
    record {
      counts =
          λ other. rw (i other) (ground (arith, v.counts other, v.counts user, ==_iff user other));
      user_bound = λ other.
          let b = v.user_bound other in rw (i other) (ground (arith, f, b, ==_iff user other));
      tenant_bound = let b = v.tenant_bound in ground (arith, f, b);
      queues = let q = v.queues in ground (arith, q, fresh-is_sound user);
    }

-- One stream replaced by a sound one of the same user.
pub set_conn-IsCounted :
    (cfg : HubConfig) (n : ℕ) (x s : Subscription) (t : TenantSub)
    → IsCounted cfg t
    → find_conn n t.conns ≡ some s
    → is_sound x ≡ true
    → x.user ≡ s.user
    → IsCounted cfg (record t { conns = set_conn n x t.conns })
set_conn-IsCounted cfg n x s t v h g u = record {
  counts = λ other. v.counts other ∙ sym (count-set_conn n x s t.conns other h u);
  user_bound = v.user_bound;
  tenant_bound = rw (length-set_conn n x s t.conns) v.tenant_bound;
  queues = all-set_conn n x s t.conns g v.queues;
}

-- One stream less.
pub without_conn-IsCounted :
    (cfg : HubConfig) (n : ℕ) (s : Subscription) (t : TenantSub)
    → IsCounted cfg t
    → find_conn n t.conns ≡ some s
    → IsCounted cfg (without_conn n s.user t)
without_conn-IsCounted cfg n s t v h =
    let k = λ (other : String). number-less_one s.user other t.by_user in
    let c = λ (other : String). count-drop_conn n s t.conns other h in
    let l = length-drop_conn n s t.conns h in
    record {
      counts = λ other.
          rw (k other) (
            ground
              (arith, v.counts other, v.counts s.user, c other, c s.user, ==_iff s.user other));
      user_bound = λ other.
          rw (k other)
            (ground (arith, v.user_bound other, v.user_bound s.user, ==_iff s.user other));
      tenant_bound = let b = v.tenant_bound in omega (arith, l, b);
      queues = all-drop_conn n s t.conns v.queues;
    }

pub fresh-IsCounted :
    (cfg : HubConfig) (cursor : String)
    → IsCounted cfg (record { conns = []; by_user = []; cursor = cursor })
unfolding lookup
fresh-IsCounted cfg cursor = record {
  counts = λ user. refl;
  user_bound = λ user. omega arith;
  tenant_bound = omega arith;
  queues = refl;
}

pub cursor-IsCounted :
    (cfg : HubConfig) (id : String) (t : TenantSub)
    → IsCounted cfg t
    → IsCounted cfg (record t { cursor = id })
cursor-IsCounted cfg id t v = record {
  counts = v.counts;
  user_bound = v.user_bound;
  tenant_bound = v.tenant_bound;
  queues = v.queues;
}
