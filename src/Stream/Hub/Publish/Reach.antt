-- ===== src/Stream/Hub/Publish/Reach.antt =====
-- internal/stream/hub.go: whom a published event is for.
use go_tangra_notification.Prelude.{
  length-snoc, ℕ, zero, suc, ◌/◌, ◌-◌, ◌<◌, ◌≤◌, Bool, true, false, List, [], ◌∷◌, ◌++◌, String,
  ◌&&◌, ◌||◌, not, ltb, nat_eq, ◌==◌, ==_iff, ==_self, length, drop, all, any, contains,
  lookup-insert, Result, Result-cases, Bool-cases, Option-cases, inl, inr, ok, err, ◌≡◌, refl,
  arith, join, lacks, split, split-join, lookup, subst, Table, bind_result,
}
use go_tangra_notification.Stream.Memory.{
  Memory, Entry, Wake, memory_client, xadd-add_entry, xadd_down, stream_of, trimmed, rows, added_id,
}
use go_tangra_notification.Stream.Hub.{Hub, stream_key, targets, entry_field}
use go_tangra_notification.Stream.Hub.Publish.{
  Payload, Outgoing, publish_id, prepare_event, target_of, in_target, validate_type,
  checked_targets, raw_of, checked_payload,
}
use go_tangra_notification.Stream.Ids.{format_int}

lacks_comma : (u : String) → lacks in_target u ≡ true → lacks (nat_eq b',') u ≡ true
unfolding lacks
lacks_comma String.[] h = refl
lacks_comma (String.◌∷◌ c u) h = ground (arith, h, lacks_comma u)

all-lacks_comma :
    (to : List String)
    → all (λ u. not (u == "") && lacks in_target u) to ≡ true
    → all (lacks (nat_eq b',')) to ≡ true
all-lacks_comma [] h = refl
all-lacks_comma (u ∷ us) h = ground (arith, h, lacks_comma u, all-lacks_comma us)

any-eq-contains : (to : List String) (user : String) → any (λ u. u == user) to ≡ contains to user
any-eq-contains [] user = refl
any-eq-contains (u ∷ us) user = rw (any-eq-contains us user)

-- Where no id is `*`, the joined ids are not `*` either.
join_not_star :
    (x : String) (xs : List String)
    → all (lacks (nat_eq b',')) (x ∷ xs) ≡ true
    → contains (x ∷ xs) "*" ≡ false
    → join (x ∷ xs) == "*" ≡ false
unfolding split
join_not_star x xs h s = elim (Bool-cases (join (x ∷ xs) == "*")) [
  | inr n ↦ n
  | inl e ↦
      let p = (==_iff (join (x ∷ xs)) "*").0 e in
      let q : split b',' "*" ≡ x ∷ xs = subst (λ t. split b',' t ≡ x ∷ xs) p (split-join x xs h) in
      let c : contains (x ∷ xs) "*" ≡ true = subst (λ t. contains t "*" ≡ true) q refl in cc
]

-- The field `to` of what passes the checks reaches the users named, or everyone.
targets_of_target :
    (to : List String) (everyone : Bool) (target user : String)
    → checked_targets to everyone ≡ ok tt
    → target_of to everyone ≡ ok target
    → contains to "*" ≡ false
    → targets target user ≡ (everyone || contains to user)
unfolding targets split
targets_of_target to true target user c t s =
    let e : "*" ≡ target = cc in subst (λ z. targets z user ≡ true) e refl
targets_of_target [] false target user c t s = cc
targets_of_target (x ∷ xs) false target user c t s =
    elim (Bool-cases (all (λ u. not (u == "") && lacks in_target u) (x ∷ xs))) [
      | inr n ↦ ground (arith, t, n)
      | inl a ↦
          let l = all-lacks_comma (x ∷ xs) a in
          let j : join (x ∷ xs) ≡ target = ground (arith, t, a) in
          let r : (join (x ∷ xs) == "*" || any (λ u. u == user) (split b',' (join (x ∷ xs))))
              ≡ contains (x ∷ xs) user =
            rw (join_not_star x xs l s, split-join x xs l) (any-eq-contains (x ∷ xs) user) in
          subst (λ z. (z == "*" || any (λ u. u == user) (split b',' z)) ≡ contains (x ∷ xs) user) j
            r
    ]

-- What passes all the checks passed each.
bind-ok :
    {A B : Type 0} (r : Result A) (f : A → Result B) {b : B}
    → bind_result r f ≡ ok b
    → (a : A) × (r ≡ ok a) × (f a ≡ ok b)
bind-ok (ok a) f h = (a, refl, h)
bind-ok (err e) f h = cc

record Prepared (valid : String → Bool) (to : List String) (everyone : Bool) (kind : String)
    (p : Payload) (from_module : Bool) (o : Outgoing) : Type 0 where
  pub typed : validate_type kind from_module ≡ ok tt
  pub aimed : checked_targets to everyone ≡ ok tt
  pub sized : (s : String) × (raw_of p ≡ ok s) × (checked_payload valid s ≡ ok o.body)
  pub named : target_of to everyone ≡ ok o.target

prepare-Prepared :
    (valid : String → Bool) (to : List String) (everyone : Bool) (kind : String) (p : Payload)
    (from_module : Bool) (o : Outgoing)
    → prepare_event valid to everyone kind p from_module ≡ ok o
    → Prepared valid to everyone kind p from_module o
unfolding prepare_event
prepare-Prepared valid to everyone kind p from_module o h =
    let a = bind-ok (validate_type kind from_module) _ h in
    let b = bind-ok (checked_targets to everyone) _ a.2 in
    let c = bind-ok (raw_of p) _ b.2 in
    let d = bind-ok (checked_payload valid c.0) _ c.2 in
    let e = bind-ok (target_of to everyone) _ d.2 in
    record {
      typed = a.1;
      aimed = b.1;
      sized = (c.0, c.1, ground (arith, d.1, e.2));
      named = ground (arith, e.1, e.2);
    }

drop-snoc :
    (n : ℕ) (es : List Entry) (e : Entry)
    → n ≤ length es
    → drop n (es ++ e ∷ []) ≡ drop n es ++ e ∷ []
drop-snoc zero es e h = refl
drop-snoc (suc n) [] e h = ground (arith, h)
drop-snoc (suc n) (x ∷ es) e h = drop-snoc n es e (omega (arith, h))

-- Trimming to one entry at least keeps the newest.
trimmed_keeps_last :
    (max_len : ℕ) (es : List Entry) (e : Entry)
    → 0 < max_len
    → (rest : List Entry) × (trimmed max_len (es ++ e ∷ []) ≡ rest ++ e ∷ [])
unfolding trimmed
trimmed_keeps_last max_len es e h =
    let l = length-snoc es e in
    elim (Bool-cases (ltb 0 max_len && ltb max_len (length (es ++ e ∷ [])))) [
      | inr n ↦ (es, rw n refl)
      | inl y ↦ (
        drop (length (es ++ e ∷ []) - max_len) es,
        rw y (drop-snoc (length (es ++ e ∷ []) - max_len) es e (omega (arith, l, h))),
      )
    ]

-- What publishing leaves in the tenant's stream: its newest entry is the event, under the id that is
-- returned, with the type and the payload that were checked, and it is for exactly the users named,
-- or for every user.
abbrev pub IsPublished :
    (String → Bool) → List String → Bool → String → Payload → String → List Entry → Type 0
IsPublished valid to everyone kind p i es =
    (e : Entry) × (rest : List Entry) × (es ≡ rest ++ e ∷ [])
    × (e.id ≡ i)
    × (entry_field "type" e ≡ kind)
    × (bind_result (raw_of p) (checked_payload valid) ≡ ok (entry_field "data" e))
    × ((user : String) → targets (entry_field "to" e) user ≡ (everyone || contains to user))

module _ (wake : Wake) (valid : String → Bool) (h : Hub) (tid : String) (to : List String)
    (everyone : Bool) (kind : String) (p : Payload) (from_module : Bool) (m : Memory)
    (i : String) where
  fields_of : Outgoing → Table String
  fields_of o =
      ("to", o.target)
      ∷ ("type", kind)
      ∷ ("data", o.body)
      ∷ ("at", format_int (h.now / 1000000))
      ∷ []

  entry_of : Outgoing → Entry
  unfolding fields_of
  entry_of o = record { id = added_id m; fields = fields_of o }

  -- A publication that succeeds, none of whose ids is `*`, puts the event at the end of the tenant's
  -- stream, whatever the stream's bound (of one entry at least) drops at its start: under the id that
  -- is returned, with the type and the payload given, and for exactly the users named, or for every
  -- user.
  pub publish_id-IsPublished :
      (publish_id (memory_client wake) valid h tid to everyone kind p from_module m).0 ≡ ok i
      → 0 < h.cfg.max_len
      → contains to "*" ≡ false
      → IsPublished valid to everyone kind p i (
          stream_of
            (stream_key tid)
            (publish_id (memory_client wake) valid h tid to everyone kind p from_module m).1)
  unfolding publish_id stream_of entry_of fields_of lookup
  publish_id-IsPublished r l s =
      elim (Result-cases (prepare_event valid to everyone kind p from_module)) [
        | inr (e, a) ↦ absurd (ground (arith, r, a))
        | inl (o, a) ↦ elim (Option-cases m.down) [
          | inr (e, d) ↦
              let x = xadd_down (stream_key tid) (fields_of o) h.cfg.max_len m e d in
              absurd (ground (arith, rw (a, x) at r))
          | inl d ↦
              let q = prepare-Prepared valid to everyone kind p from_module o a in
              let old = rows (lookup (stream_key tid) m.streams) in
              let k = trimmed_keeps_last h.cfg.max_len old (entry_of o) l in
              let f =
                lookup-insert (stream_key tid) (stream_key tid)
                  (trimmed h.cfg.max_len (old ++ entry_of o ∷ [])) m.streams in
              let x = xadd-add_entry (stream_key tid) (fields_of o) h.cfg.max_len m d in
              let newest = rw (a, x) at r in
              rw (a, x)
                (
                  entry_of o,
                  k.0,
                  rw (f, ==_self (stream_key tid)) k.1,
                  ground (arith, newest),
                  refl,
                  rw q.sized.1 q.sized.2,
                  λ user. targets_of_target to everyone o.target user q.aimed q.named s,
                )
        ]
      ]
