-- ===== src/Stream/Limiter/Quota.antt =====
-- internal/stream/client.go: how many calls of the limiter one window lets through.
use go_tangra_notification.Prelude.{
  ℕ, zero, suc, ◌+◌, ◌-◌, ◌*◌, ◌≤◌, ◌<◌, Bool, true, false, Option, none, some, List, [], ◌∷◌, ◌⊎◌,
  String, ◌&&◌, ◌||◌, not, if◌then◌else◌, ltb, nat_eq, ◌==◌, ==_iff, count, all, lookup,
  lookup-insert, ==_self, ◌∙◌, ap, Err, ◌≡◌, refl, arith, Bool-cases, Option-cases, inl, inr,
}
use go_tangra_notification.Stream.Memory.{
  Memory, Counter, Wake, memory_client, incr, bumped, restarted, count_of,
}
use go_tangra_notification.Stream.Limiter.{rate_key, minute_of, limited}

-- A call of the limiter, with the clock and the outage that the server has then.
pub record LimiterCall : Type 0 where
  pub kind : String
  pub subject : String
  pub limit : ℕ
  pub at : ℕ
  pub down : Option Err

abbrev pub key_of : LimiterCall → String
key_of c = rate_key c.kind c.subject c.at

abbrev pub during : LimiterCall → Memory → Memory
during c m = record m { now = c.at; down = c.down }

abbrev pub is_up : LimiterCall → Bool
is_up c = elim c.down [ none ↦ true | some e ↦ false ]

-- How many of the calls with this key are let through, one call after the other.
unfoldable pub let_through : String → Wake → List LimiterCall → Memory → ℕ
let_through key wake [] m = 0
let_through key wake (c ∷ cs) m =
    let r = limited (memory_client wake) c.kind c.subject c.limit c.at (during c m) in
    let rest = let_through key wake cs r.1 in
    if key_of c == key && not r.0.refused then suc rest else rest

-- A call with this key has this limit and comes in this minute.
abbrev pub is_regular : String → ℕ → ℕ → LimiterCall → Bool
is_regular key limit minute c =
    not (key_of c == key) || (nat_eq c.limit limit && nat_eq (minute_of c.at) minute)

abbrev pub counts_in : String → LimiterCall → Bool
counts_in key c = key_of c == key && is_up c

-- The counter of the key stands at `n`, and does not start again within the minute.
abbrev StandsAt : ℕ → ℕ → Counter → Type 0
StandsAt minute n c =
    (c.n ≡ n) × ((n ≡ 0) ⊎ ((t : ℕ) × (c.exp ≡ some t) × (minute * 60000000000 + 120000000000 ≤ t)))

bumped-StandsAt :
    (minute n now : ℕ) (c : Counter)
    → StandsAt minute n c
    → minute_of now ≡ minute
    → StandsAt minute (suc n) (bumped 120000000000 now c)
unfolding bumped restarted
bumped-StandsAt minute n now c (e, inl z) h =
    (ground (arith, e, z), inr (now + 120000000000, ground (arith, e, z), omega (arith, h)))
bumped-StandsAt minute n now c (e, inr (t, f, l)) h = elim (Bool-cases (nat_eq c.n 0)) [
  | inl z ↦ (ground (arith, e, z), inr (now + 120000000000, ground (arith, e, z), omega (arith, h)))
  | inr z ↦
      let early : ltb now t ≡ true = let k : now < t = omega (arith, h, l) in ground (arith, k) in
      (ground (arith, e, z, f, early), inr (t, ground (arith, e, z, f, early), l))
]

module _ (key : String) (wake : Wake) where
  -- A call for another key leaves the counter of this one.
  others :
      (kind subject : String) (limit at : ℕ) (m : Memory)
      → rate_key kind subject at == key ≡ false
      → lookup key (limited (memory_client wake) kind subject limit at m).1.counters
        ≡ lookup key m.counters
  unfolding incr
  others kind subject zero at m h = refl
  others kind subject (suc n) at m h = elim (Option-cases m.down) [
    | inr (e, d) ↦ rw d refl
    | inl d ↦ rw d (
        lookup-insert (rate_key kind subject at) key
          (bumped 120000000000 m.now (count_of (lookup (rate_key kind subject at) m.counters)))
          m.counters
        ∙ rw h refl)
  ]

  -- A call for the key while the server is up counts one more, and is let through up to the limit.
  module _ (kind subject : String) (n at : ℕ) (m : Memory)
      (same : rate_key kind subject at ≡ key) where
    counted :
        m.down ≡ none
        → lookup key (limited (memory_client wake) kind subject (suc n) at m).1.counters
          ≡ some (bumped 120000000000 m.now (count_of (lookup key m.counters)))
    unfolding incr
    counted d =
        rw (d, same)
          (lookup-insert key key (bumped 120000000000 m.now (count_of (lookup key m.counters)))
              m.counters
            ∙ rw (==_self key) refl)

    counted_answer :
        m.down ≡ none
        → (limited (memory_client wake) kind subject (suc n) at m).0.refused
          ≡ ltb (suc n) (bumped 120000000000 m.now (count_of (lookup key m.counters))).n
    unfolding incr
    counted_answer d = rw (d, same) refl

    unheard :
        (e : Err)
        → m.down ≡ some e
        → ((limited (memory_client wake) kind subject (suc n) at m).0.refused ≡ true)
          × (lookup key (limited (memory_client wake) kind subject (suc n) at m).1.counters
              ≡ lookup key m.counters)
    unfolding incr
    unheard e d = (rw d refl, rw d refl)

abbrev pub fewer : ℕ → ℕ → ℕ
fewer a b = if ltb b a then b else a

module _ (key : String) (wake : Wake) (l minute : ℕ) where
  -- `n` calls have been counted before.
  let_through_from :
      (cs : List LimiterCall) (n : ℕ) (m : Memory)
      → all (is_regular key (suc l) minute) cs ≡ true
      → StandsAt minute n (count_of (lookup key m.counters))
      → let_through key wake cs m ≡ fewer (count (counts_in key) cs) (suc l - n)
  unfolding let_through
  let_through_from [] n m h s = ground arith
  let_through_from (c ∷ cs) n m h s =
      let next = limited (memory_client wake) c.kind c.subject c.limit c.at (during c m) in
      let rest : all (is_regular key (suc l) minute) cs ≡ true = ground (arith, h) in
      elim (Bool-cases (key_of c == key)) [
        | inr b ↦
            let o = others key wake c.kind c.subject c.limit c.at (during c m) b in
            let ih = let_through_from cs n next.1 rest (rw o s) in ground (arith, b, ih)
        | inl b ↦
            let same = (==_iff (key_of c) key).0 b in
            let lim : c.limit ≡ suc l = ground (arith, h, b) in
            let min : minute_of c.at ≡ minute = ground (arith, h, b) in
            elim (Option-cases c.down) [
              | inr (e, d) ↦
                  let u = unheard key wake c.kind c.subject l c.at (during c m) same e d in
                  let ih = let_through_from cs n next.1 rest (rw (lim, u.1) s) in
                  let refused : next.0.refused ≡ true = rw lim u.0 in
                  ground (arith, b, d, refused, ih)
              | inl d ↦
                  let k = counted key wake c.kind c.subject l c.at (during c m) same d in
                  let a = counted_answer key wake c.kind c.subject l c.at (during c m) same d in
                  let t = bumped-StandsAt minute n c.at (count_of (lookup key m.counters)) s min in
                  let ih = let_through_from cs (suc n) next.1 rest (rw (lim, k) t) in
                  let refused : next.0.refused ≡ ltb (suc l) (suc n) = rw (lim, a, t.0) refl in
                  ground (arith, b, d, refused, ih)
            ]
      ]

-- In one minute the limiter lets through exactly as many calls of a key as the limit allows: of a
-- sequence of calls on fresh counters, at any times and with outages at will, of which those with
-- the key have one limit above 0 and come in one minute, it lets through every call that the server
-- counts, up to the limit, and no other.
pub let_through_lem :
    (key : String) (wake : Wake) (l minute : ℕ) (cs : List LimiterCall) (m : Memory)
    → all (is_regular key (suc l) minute) cs ≡ true
    → lookup key m.counters ≡ none
    → let_through key wake cs m ≡ fewer (count (counts_in key) cs) (suc l)
let_through_lem key wake l minute cs m h f =
    let_through_from key wake l minute cs 0 m h (ground (arith, f), inl refl)
    ∙ ap (fewer (count (counts_in key) cs)) (omega arith)
