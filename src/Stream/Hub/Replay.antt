-- ===== src/Stream/Hub/Replay.antt =====
-- internal/stream/hub.go: what a reconnecting reader is given of what it missed.
use go_tangra_notification.Prelude.{
  append_assoc, length-snoc, all_implies, ℕ, zero, suc, ◌-◌, Bool, true, false, List, [], ◌∷◌, ◌++◌,
  String, ◌&&◌, ◌||◌, not, if◌then◌else◌, ltb, ◌==◌, ==_self, length, all, take, select, map, ◌≡◌,
  refl, arith, Bool-cases, inl, inr, ap, ◌∙◌,
}
use go_tangra_notification.Stream.Ids.{less}
use go_tangra_notification.Stream.Memory.{Entry}
use go_tangra_notification.Stream.Hub.{
  Subscription, LiveEvent, push, targets, entry_field, event_of, replay_entries,
}

-- The entries have ids, in order, the first of them after `last` where that is one.
abbrev pub follows : String → String → Bool
follows last id = not (id == "") && (last == "" || less last id)

unfoldable pub ascending : List Entry → Bool
ascending [] = true
ascending (e ∷ es) = all (λ x. follows e.id x.id) es && ascending es

abbrev pub is_for : String → Entry → Bool
is_for user e = targets (entry_field "to" e) user

-- A push of an event after `last` to an open stream.
push_new :
    (e : Entry) (s : Subscription)
    → s.closed ≡ false
    → follows s.last e.id ≡ true
    → (push (event_of e) s).1 ≡ (record s {
      last = e.id;
      queue = if ltb (length s.queue) 32 then s.queue ++ event_of e ∷ [] else s.queue;
    })
unfolding push
push_new e s o f = elim (Bool-cases (ltb (length s.queue) 32)) [
  | inl r ↦ ground (arith, o, f, r)
  | inr r ↦ ground (arith, o, f, r)
]

take_append :
    (q : List LiveEvent) (x : LiveEvent) (xs : List LiveEvent)
    → (if ltb (length q) 32 then q ++ x ∷ [] else q)
        ++ take (32 - length (if ltb (length q) 32 then q ++ x ∷ [] else q)) xs
      ≡ q ++ take (32 - length q) (x ∷ xs)
take_append q x xs = elim (Bool-cases (ltb (length q) 32)) [
  | inl r ↦
      let l = length-snoc q x in
      let e : 32 - length q ≡ suc (32 - length (q ++ x ∷ [])) = ground (arith, r, l) in
      rw (r, e) (append_assoc q (x ∷ []) (take (32 - length (q ++ x ∷ [])) xs))
  | inr r ↦ let e : 32 - length q ≡ 0 = ground (arith, r) in rw (r, e) refl
]

take_nothing : (q : List LiveEvent) (n : ℕ) → q ≡ q ++ take n []
take_nothing [] zero = refl
take_nothing [] (suc n) = refl
take_nothing (x ∷ q) n = ap (λ l. x ∷ l) (take_nothing q n)

-- The general case, with what is queued already.
replay_onto :
    (es : List Entry) (s : Subscription)
    → s.closed ≡ false
    → all (λ e. follows s.last e.id) es ≡ true
    → ascending es ≡ true
    → (replay_entries es s).queue
      ≡ s.queue ++ take (32 - length s.queue) (map event_of (select (is_for s.user) es))
unfolding replay_entries ascending
replay_onto [] s o f a = take_nothing s.queue (32 - length s.queue)
replay_onto (e ∷ es) s o f a = elim (Bool-cases (is_for s.user e)) [
  | inr t ↦ rw (t, replay_entries) (replay_onto es s o (ground (arith, f)) (ground (arith, a)))
  | inl t ↦
      let p = push_new e s o (ground (arith, f)) in
      let next = record s {
        last = e.id;
        queue = if ltb (length s.queue) 32 then s.queue ++ event_of e ∷ [] else s.queue;
      } in
      let ih = replay_onto es next o (ground (arith, a)) (ground (arith, a)) in
      rw (t, replay_entries)
        (ap (λ z. (replay_entries es z).queue) p
          ∙ ih
          ∙ take_append s.queue (event_of e) (map event_of (select (is_for s.user) es)))
]

-- The replay of a new stream gives its reader the first 32 of the missed events that are for its
-- user, in order, and drops the others without a sign: the entries have ids, in rising order.
pub replay_entries_lem :
    (es : List Entry) (s : Subscription)
    → s.closed ≡ false
    → s.queue ≡ []
    → s.last ≡ ""
    → all (λ e. not (e.id == "")) es ≡ true
    → ascending es ≡ true
    → (replay_entries es s).queue ≡ take 32 (map event_of (select (is_for s.user) es))
replay_entries_lem es s o q l n a =
    let f : all (λ e. follows s.last e.id) es ≡ true = rw l (
      all_implies (λ e. not (e.id == "")) (λ e. follows "" e.id) es
        (λ x h. ground (arith, h, ==_self "")) n) in
    replay_onto es s o f a ∙ rw q refl

-- What is pushed live before the replay hides the missed events before it: they are not queued.
pub replay_hidden :
    (es : List Entry) (s : Subscription)
    → s.last == "" ≡ false
    → all (λ e. not (e.id == "") && not (less s.last e.id)) es ≡ true
    → replay_entries es s ≡ s
unfolding replay_entries push
replay_hidden [] s l h = refl
replay_hidden (e ∷ es) s l h = elim (Bool-cases (is_for s.user e)) [
  | inr t ↦ rw t (replay_hidden es s l (ground (arith, h)))
  | inl t ↦
      let p : (push (event_of e) s).1 ≡ s = ground (arith, l, h) in
      rw t (ap (replay_entries es) p ∙ replay_hidden es s l (ground (arith, h)))
]
