-- ===== src/Stream/Hub/Queue.antt =====
-- internal/stream/hub.go: what a subscription queues for its reader.
use go_tangra_notification.Prelude.{
  all-snoc, all_implies, append_assoc, length-snoc, ◌⊎◌, suc, ◌≤◌, Bool, true, false, List, [], ◌∷◌,
  ◌++◌, String, ◌&&◌, ◌||◌, not, if◌then◌else◌, ltb, leb, ◌==◌, ==_iff, ==_self, length, all, ◌≡◌,
  refl, arith, Bool-cases, inl, inr, ◌∙◌, ap, sym,
}
use go_tangra_notification.Stream.Ids.{less, less_trans}
use go_tangra_notification.Stream.Memory.{Entry}
use go_tangra_notification.Stream.Hub.{
  Subscription, LiveEvent, send_buffered, push, targets, entry_field, event_of, replay_entries,
}
use go_tangra_notification.Stream.Hub.Streams.{take_first, fresh_stream}

-- The ids of the events that have one.
unfoldable pub ids_of : List LiveEvent → List String
ids_of [] = []
ids_of (e ∷ es) = let rest = ids_of es in if e.id == "" then rest else e.id ∷ rest

-- Each id comes before all that follow it.
unfoldable pub rising : List String → Bool
rising [] = true
rising (x ∷ xs) = all (less x) xs && rising xs

-- What the reader has received and will receive.
abbrev pub received : Subscription → List LiveEvent
received s = s.taken ++ s.queue

abbrev reaches : String → String → Bool
reaches last x = not (last == "") && (x == last || less x last)

-- The buffer holds 32 events at most, ids rise, and `last` is not behind any of them.
pub is_sound : Subscription → Bool
is_sound s =
    leb (length s.queue) 32
    && rising (ids_of (received s))
    && all (reaches s.last) (ids_of (received s))

rising-snoc :
    (xs : List String) (e : String)
    → rising xs ≡ true
    → all (λ x. less x e) xs ≡ true
    → rising (xs ++ e ∷ []) ≡ true
unfolding rising
rising-snoc [] e h b = refl
rising-snoc (x ∷ xs) e h b = ground (arith, h, b, all-snoc (less x) xs e, rising-snoc xs e)

ids_of-snoc :
    (xs : List LiveEvent) (e : LiveEvent)
    → ids_of (xs ++ e ∷ []) ≡ (if e.id == "" then ids_of xs else ids_of xs ++ e.id ∷ [])
unfolding ids_of
ids_of-snoc [] e = ground arith
ids_of-snoc (x ∷ xs) e = ground (arith, ids_of-snoc xs e)

append_snoc {ℓ} :
    {A : Type ℓ} (xs ys : List A) (e : A) → xs ++ (ys ++ e ∷ []) ≡ (xs ++ ys) ++ e ∷ []
append_snoc [] ys e = refl
append_snoc (x ∷ xs) ys e = ap (λ l. x ∷ l) (append_snoc xs ys e)

-- What is reached by `last` is before what `last` is before, and is then reached by that.
module _ (last e : String) (newer : last == "" ≡ true ⊎ (less last e ≡ true))
    (named : e == "" ≡ false) where
  reaches-less : (x : String) → reaches last x ≡ true → less x e ≡ true
  reaches-less x h = ground (arith, newer, h, less_trans x last e, ==_iff x last)

  reaches_on : (x : String) → reaches last x ≡ true → reaches e x ≡ true
  reaches_on x h = ground (arith, named, reaches-less x h)

-- Sending a reset, which has no id.
send_plain-is_sound :
    (ev : LiveEvent) (s : Subscription)
    → ev.id == "" ≡ true
    → is_sound s ≡ true
    → is_sound (send_buffered ev s).1 ≡ true
unfolding is_sound
send_plain-is_sound ev s n h =
    let a = append_snoc s.taken s.queue ev in
    let i : ids_of (s.taken ++ (s.queue ++ ev ∷ [])) ≡ ids_of (received s) =
      ap ids_of a ∙ ids_of-snoc (received s) ev ∙ rw n refl in
    elim (Bool-cases (ltb (length s.queue) 32)) [
      | inr f ↦ rw f h
      | inl f ↦ rw (f, i) (ground (arith, f, h, length-snoc s.queue ev))
    ]

-- Sending an event whose id is ahead of `last`.
send_named-is_sound :
    (ev : LiveEvent) (s : Subscription)
    → ev.id == "" ≡ false
    → (s.last == "" ≡ true) ⊎ (less s.last ev.id ≡ true)
    → is_sound s ≡ true
    → is_sound (send_buffered ev (record s { last = ev.id })).1 ≡ true
unfolding is_sound
send_named-is_sound ev s n newer h =
    let ids = ids_of (received s) in
    let a = append_snoc s.taken s.queue ev in
    let i : ids_of (s.taken ++ (s.queue ++ ev ∷ [])) ≡ ids ++ ev.id ∷ [] =
      ap ids_of a ∙ ids_of-snoc (received s) ev ∙ rw n refl in
    let r : all (reaches s.last) ids ≡ true = ground (arith, h) in
    let lt =
      all_implies (reaches s.last) (λ x. less x ev.id) ids (reaches-less s.last ev.id newer n) r in
    let on = all_implies (reaches s.last) (reaches ev.id) ids (reaches_on s.last ev.id newer n) r in
    elim (Bool-cases (ltb (length s.queue) 32)) [
      | inr f ↦ rw f (ground (arith, h, on))
      | inl f ↦
          rw (f, i)
            (ground (
              arith,
              f,
              h,
              length-snoc s.queue ev,
              rising-snoc ids ev.id,
              lt,
              on,
              all-snoc (reaches ev.id) ids ev.id,
              ==_self ev.id,
              n,
            ))
    ]

pub push-is_sound :
    (ev : LiveEvent) (s : Subscription) → is_sound s ≡ true → is_sound (push ev s).1 ≡ true
unfolding push
push-is_sound ev s h = elim (Bool-cases (ev.id == "")) [
  | inl n ↦ let p = send_plain-is_sound ev s n h in ground (arith, n, h, p)
  | inr n ↦ elim (Bool-cases (s.last == "")) [
    | inl z ↦ let p = send_named-is_sound ev s n (inl z) h in ground (arith, n, z, h, p)
    | inr z ↦ elim (Bool-cases (less s.last ev.id)) [
      | inl l ↦ let p = send_named-is_sound ev s n (inr l) h in ground (arith, n, z, l, h, p)
      | inr l ↦ ground (arith, n, z, l, h)
    ]
  ]
]

pub user-push : (ev : LiveEvent) (s : Subscription) → (push ev s).1.user ≡ s.user
unfolding push
user-push ev s = ground arith

pub replay_entries-is_sound :
    (es : List Entry) (s : Subscription)
    → is_sound s ≡ true
    → (is_sound (replay_entries es s) ≡ true) × ((replay_entries es s).user ≡ s.user)
unfolding replay_entries
replay_entries-is_sound [] s h = (h, refl)
replay_entries-is_sound (e ∷ es) s h = elim (Bool-cases (targets (entry_field "to" e) s.user)) [
  | inl t ↦
      let r = replay_entries-is_sound es (push (event_of e) s).1 (push-is_sound (event_of e) s h) in
      (rw t r.0, rw (t, replay_entries) (r.1 ∙ user-push (event_of e) s))
  | inr t ↦ let r = replay_entries-is_sound es s h in (rw t r.0, rw (t, replay_entries) r.1)
]

-- What the reader takes stays received.
pub take_first-is_sound :
    (s : Subscription) (q : List LiveEvent)
    → s.queue ≡ q
    → is_sound s ≡ true
    → is_sound (take_first s q) ≡ true
unfolding is_sound
take_first-is_sound s [] e h = h
take_first-is_sound s (x ∷ q) e h =
    let i : ids_of ((s.taken ++ x ∷ []) ++ q) ≡ ids_of (received s) =
      ap ids_of (append_assoc s.taken (x ∷ []) q ∙ ap (λ l. s.taken ++ l) (sym e)) in
    let l : length s.queue ≡ suc (length q) = ap length e in ground (arith, h, i, l)

pub fresh-is_sound : (user : String) → is_sound (fresh_stream user) ≡ true
unfolding is_sound rising ids_of
fresh-is_sound user = refl

-- A stream that is closed still has its queue.
pub closed-is_sound : (s : Subscription) → is_sound (record s { closed = true }) ≡ is_sound s
unfolding is_sound
closed-is_sound s = refl

pub user-take_first : (s : Subscription) (q : List LiveEvent) → (take_first s q).user ≡ s.user
user-take_first s [] = refl
user-take_first s (e ∷ q) = refl

pub is_sound-parts :
    (s : Subscription)
    → is_sound s ≡ true
    → (length s.queue ≤ 32) × (rising (ids_of (received s)) ≡ true)
unfolding is_sound
is_sound-parts s h = (ground (arith, h), ground (arith, h))
