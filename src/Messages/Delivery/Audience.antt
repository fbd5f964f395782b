-- ===== src/Messages/Delivery/Audience.antt =====
-- internal/messages/messages.go: the audience of a publication.
use go_tangra_notification.Prelude.{
  ℕ, ◌≡◌, true, false, Option, some, List, [], String, arith, inl, inr, ◌⊎◌, all, Bool-cases, ok,
  Result-cases, Option-cases, select, contains, not, sort_by, str_lt,
}
use go_tangra_notification.Store.{Recipients, Message, Status, published}
use go_tangra_notification.World.{World}
use go_tangra_notification.Memstore.{Store, failing}
use go_tangra_notification.Memstore.Messages.{set_message_status, get_message}
use go_tangra_notification.Authz.Decide.{Subjects}
use go_tangra_notification.Messages.Publish.{
  Directory, deliver_each, flatten, in_batches, all_batches, fan_out, fan_out_all, fan_out_users,
  publish,
}
use go_tangra_notification.Messages.Delivery.Reach.{Fresh, reached}
use go_tangra_notification.Messages.Delivery.Fanout.{
  deliver_each-reach, in_batches_lem, flatten-all_batches,
}

module _ (new_id : ℕ → String) (distinct_ids : (a b : ℕ) → new_id a ≡ new_id b → a ≡ b)
    (dir : Directory) (tid id : String) where
  -- The audience that a message's recipients stand for has deliveries in the store.
  abbrev pub Served : Recipients → World → List String → Type 0
  Served rc w dropped =
      ((rc.all ≡ true)
        × (all (reached new_id distinct_ids id w.store.inbox) (flatten (dir.members tid).0) ≡ true)
        × (dropped ≡ []))
      ⊎ ((rc.all ≡ false)
          × ((active : List String) × (dir.lookup tid rc.users ≡ ok active)
              × (all (reached new_id distinct_ids id w.store.inbox) active ≡ true)
              × (dropped ≡ sort_by str_lt (select (λ u. not (contains active u)) rc.users))))

  fan_out_all-Served :
      (w : World) {n : ℕ} {dropped : List String}
      → Fresh new_id distinct_ids w.drawn w.store.inbox
      → (fan_out_all new_id dir tid id w).0 ≡ ok (n, dropped)
      → (all
            (reached new_id distinct_ids id (fan_out_all new_id dir tid id w).1.store.inbox)
            (flatten (dir.members tid).0)
          ≡ true)
        × (dropped ≡ [])
  unfolding fan_out_all
  fan_out_all-Served w {n} {dropped} f h =
      let bs = all_batches (dir.members tid).0 in
      elim (Result-cases (deliver_each new_id tid id bs w).0) [
        | inr (e, x) ↦ absurd (ground (arith, h, x))
        | inl (k, x) ↦ elim (Option-cases (dir.members tid).1) [
          | inr (e, y) ↦ absurd (ground (arith, h, x, y))
          | inl y ↦
              let r = deliver_each-reach new_id distinct_ids tid id bs w f x in
              (
                rw (x, y, fan_out_all)
                    (rw (flatten-all_batches (dir.members tid).0) at r.all_reached),
                ground (arith, h, x, y),
              )
        ]
      ]

  fan_out_users-Served :
      (users : List String) (w : World) {n : ℕ} {dropped : List String}
      → Fresh new_id distinct_ids w.drawn w.store.inbox
      → (fan_out_users new_id dir tid id users w).0 ≡ ok (n, dropped)
      → (active : List String) × (dir.lookup tid users ≡ ok active)
        × (all
              (reached new_id distinct_ids id
                (fan_out_users new_id dir tid id users w).1.store.inbox)
              active
            ≡ true)
        × (dropped ≡ sort_by str_lt (select (λ u. not (contains active u)) users))
  unfolding fan_out_users
  fan_out_users-Served users w f h = elim (Result-cases (dir.lookup tid users)) [
    | inr (e, y) ↦ absurd (ground (arith, h, y))
    | inl (active, y) ↦ elim (Result-cases (deliver_each new_id tid id (in_batches active) w).0) [
      | inr (e, x) ↦ absurd (ground (arith, h, x, y))
      | inl (k, x) ↦
          let r = deliver_each-reach new_id distinct_ids tid id (in_batches active) w f x in
          (
            active,
            y,
            rw (y, x, fan_out_users) (rw (in_batches_lem active).0 at r.all_reached),
            ground (arith, h, x, y),
          )
    ]
  ]

  fan_out-Served :
      (rc : Recipients) (w : World) {n : ℕ} {dropped : List String}
      → Fresh new_id distinct_ids w.drawn w.store.inbox
      → (fan_out new_id dir tid id rc w).0 ≡ ok (n, dropped)
      → Served rc (fan_out new_id dir tid id rc w).1 dropped
  unfolding fan_out
  fan_out-Served rc w {n} {dropped} f h = elim (Bool-cases rc.all) [
    | inl a ↦
        let (served, none_dropped) =
          fan_out_all-Served w {n = n} {dropped = dropped} f (ground (arith, h, a)) in
        inl (a, rw (a, fan_out) served, none_dropped)
    | inr a ↦ inr (
      a,
      rw (a, fan_out)
          (fan_out_users-Served rc.users w {n = n} {dropped = dropped} f (ground (arith, h, a))),
    )
  ]

  set_message_status_inbox :
      (s : Status) (at : Option ℕ) (m : Store)
      → (set_message_status tid id s at m).1.inbox ≡ m.inbox
  unfolding set_message_status failing
  set_message_status_inbox s at m = ground arith

  -- Where the ids still to be drawn are distinct and none is taken, a publication that succeeds has
  -- left a delivery of the message for every active member, if the message is for all, or for every
  -- user on it who is an active member; and it reports as dropped, in order, the users who are none.
  pub publish-Served :
      (actor : Subjects) (now : ℕ) (w : World) {x : Message} {n : ℕ} {dropped : List String}
      → Fresh new_id distinct_ids w.drawn w.store.inbox
      → get_message tid id w.store ≡ ok x
      → (publish new_id dir tid id actor now w).0 ≡ ok (n, dropped)
      → Served x.recipients (publish new_id dir tid id actor now w).1 dropped
  unfolding publish
  publish-Served actor now w {x} {n} {dropped} f g h =
      elim (Result-cases (fan_out new_id dir tid id x.recipients w).0) [
        | inr (e, y) ↦ absurd (ground (arith, h, g, y))
        | inl ((k, l), y) ↦
            let w' = (fan_out new_id dir tid id x.recipients w).1 in
            elim (Result-cases (set_message_status tid id published (some now) w'.store).0) [
              | inr (e, z) ↦ absurd (ground (arith, h, g, y, z))
              | inl (u, z) ↦
                  let same : l ≡ dropped = ground (arith, h, g, y, z) in
                  rw
                    (
                      g,
                      y,
                      z,
                      set_message_status_inbox published (some now) w'.store,
                      ← same,
                      publish,
                    )
                    (fan_out-Served x.recipients w f y)
            ]
      ]
