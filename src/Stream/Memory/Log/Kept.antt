-- ===== src/Stream/Memory/Log/Kept.antt =====
-- internal/stream/client.go: the in-process stream keeps an end of the log.
use go_tangra_notification.Prelude.{
  length-snoc, ℕ, zero, suc, ◌+◌, ◌-◌, ◌/◌, ◌≤◌, ◌<◌, true, List, [], ◌∷◌, ◌++◌, String, length,
  drop, all, select, Option, none, Table, Err, ◌≡◌, refl, arith, ap, ◌∙◌, sym, lookup, insert,
  lookup-insert, ==_self,
}
use go_tangra_notification.Stream.Ids.{less, id, id_of_ms}
use go_tangra_notification.Stream.Ids.RoundTrip.{less-id_of_ms}
use go_tangra_notification.Stream.Memory.{
  Memory, Entry, xadd, xadd-add_entry, add_entry, xtrim_min_id, added_id, trimmed, stream_of, rows,
}
use go_tangra_notification.Stream.Memory.Log.{
  rises, drop-drop, trimmed-drop, is_from, select-drop, rises-drop,
}
use go_tangra_notification.Stream.Memory.Log.Order.{all_snoc, drop_within}

abbrev pub bound : ℕ
bound = 9223372036854775808

-- An entry that was added by now has an id of a time that has passed and of a sequence number given.
pub record IsDated (m : Memory) (e : Entry) : Type 0 where
  pub ms : ℕ
  pub seq : ℕ
  pub made : e.id ≡ id_of_ms ms seq
  pub passed : ms ≤ m.now / 1000000
  pub given : seq ≤ m.seq
  pub ms_small : ms < bound
  pub seq_small : seq < bound

abbrev pub AllDated : Memory → List Entry → Type 0
AllDated m [] = Unit
AllDated m (e ∷ es) = IsDated m e × AllDated m es

dated_before :
    (m : Memory) (at : ℕ) (e : Entry)
    → IsDated m e
    → m.now ≤ at
    → at / 1000000 < bound
    → suc m.seq < bound
    → less e.id (id at (suc m.seq)) ≡ true
unfolding id
dated_before m at e d t a s =
    let p = d.passed in
    let g = d.given in
    let c = less-id_of_ms d.ms d.seq (at / 1000000) (suc m.seq) d.ms_small d.seq_small a s in
    let later : d.ms ≤ at / 1000000 = omega (arith, p, t) in rw d.made (ground (arith, c, later, g))

dated_later :
    (m m2 : Memory) (es : List Entry)
    → m.now ≤ m2.now
    → m.seq ≤ m2.seq
    → AllDated m es
    → AllDated m2 es
dated_later m m2 [] t s h = tt
dated_later m m2 (e ∷ es) t s (d, h) = (
  record {
    ms = d.ms;
    seq = d.seq;
    made = d.made;
    passed = let p = d.passed in omega (arith, p, t);
    given = let g = d.given in omega (arith, g, s);
    ms_small = d.ms_small;
    seq_small = d.seq_small;
  },
  dated_later m m2 es t s h,
)

rises-snoc :
    (m : Memory) (at : ℕ) (es : List Entry) (x : Entry)
    → AllDated m es
    → x.id ≡ id at (suc m.seq)
    → m.now ≤ at
    → at / 1000000 < bound
    → suc m.seq < bound
    → rises es ≡ true
    → rises (es ++ x ∷ []) ≡ true
unfolding rises
rises-snoc m at [] x h i t a s r = refl
rises-snoc m at (e ∷ es) x (d, h) i t a s r =
    let l : less e.id x.id ≡ true = rw i (dated_before m at e d t a s) in
    let rest = rises-snoc m at es x h i t a s (ground (arith, r)) in
    let b : all (λ y. less e.id y.id) es ≡ true = ground (arith, r) in
    ground (arith, rest, all_snoc (λ y. less e.id y.id) es x b l)

dated-snoc :
    (m : Memory) (es : List Entry) (x : Entry)
    → AllDated m es
    → IsDated m x
    → AllDated m (es ++ x ∷ [])
dated-snoc m [] x h d = (d, tt)
dated-snoc m (e ∷ es) x (f, h) d = (f, dated-snoc m es x h d)

-- The stream of the key is the log less a beginning; the log's ids rise, and are of the past.
pub record IsLog (key : String) (m : Memory) (log : List Entry) : Type 0 where
  pub dropped : ℕ
  pub within : dropped ≤ length log
  pub kept : stream_of key m ≡ drop dropped log
  pub rising : rises log ≡ true
  pub dated : AllDated m log

length-drop : (k : ℕ) (es : List Entry) → length (drop k es) ≡ length es - k
length-drop zero es = omega arith
length-drop (suc k) [] = omega arith
length-drop (suc k) (x ∷ es) = let r = length-drop k es in omega (arith, r)

pub inserted :
    (key : String) (es : List Entry) (m : Memory) → rows (lookup key (insert key es m.streams)) ≡ es
inserted key es m = rw (lookup-insert key key es m.streams, ==_self key) refl

-- A request that leaves the stream of the key.
pub kept-IsLog :
    (key : String) (m m2 : Memory) (log : List Entry)
    → IsLog key m log
    → stream_of key m2 ≡ stream_of key m
    → m.now ≤ m2.now
    → m.seq ≤ m2.seq
    → IsLog key m2 log
kept-IsLog key m m2 log v e t s = record {
  dropped = v.dropped;
  within = v.within;
  kept = e ∙ v.kept;
  rising = v.rising;
  dated = dated_later m m2 log t s v.dated;
}

module _ (key : String) (at : ℕ) (down : Option Err) (m : Memory) (log : List Entry) where
  abbrev pub ticked : Memory
  ticked = record m { now = at; down = down }

  -- An entry is added to the stream of the key.
  pub add-IsLog :
      (fields : Table String) (max_len : ℕ)
      → IsLog key m log
      → m.now ≤ at
      → at / 1000000 < bound
      → suc m.seq < bound
      → down ≡ none
      → IsLog key
          (xadd key fields max_len ticked).1
          (log ++ record { id = added_id ticked; fields = fields } ∷ [])
  unfolding stream_of id
  add-IsLog fields max_len v t a s d =
      let x : Entry = record { id = added_id ticked; fields = fields } in
      let k = v.within in
      let l = length-snoc log x in
      let j = trimmed-drop max_len (drop v.dropped log ++ x ∷ []) in
      let n = length-snoc (drop v.dropped log) x in
      let q = length-drop v.dropped log in
      let b = j.1 in
      rw (xadd-add_entry key fields max_len ticked d) (record {
        dropped = v.dropped + j.0;
        within = omega (arith, k, l, n, q, b);
        kept =
            inserted key (trimmed max_len (stream_of key m ++ x ∷ [])) m
            ∙ ap (λ es. trimmed max_len (es ++ x ∷ [])) v.kept
            ∙ j.2
            ∙ ap (drop j.0) (sym (drop_within v.dropped log (x ∷ []) k))
            ∙ drop-drop j.0 v.dropped (log ++ x ∷ []);
        rising = rises-snoc m at log x v.dated refl t a s v.rising;
        dated =
            dated-snoc _ log x
              (dated_later m (add_entry key fields max_len ticked).1 log t (omega arith) v.dated)
              (record {
                ms = at / 1000000;
                seq = suc m.seq;
                made = refl;
                passed = omega arith;
                given = omega arith;
                ms_small = a;
                seq_small = s;
              });
      })

  -- The entries before an id are dropped.
  pub trim-IsLog :
      (min_id : String)
      → IsLog key m log
      → m.now ≤ at
      → down ≡ none
      → IsLog key (xtrim_min_id key min_id ticked).1 log
  unfolding stream_of xtrim_min_id
  trim-IsLog min_id v t d =
      let j = select-drop min_id (drop v.dropped log) (rises-drop v.dropped log v.rising) in
      let q = length-drop v.dropped log in
      let b = j.1 in
      let k = v.within in
      rw d (record {
        dropped = v.dropped + j.0;
        within = omega (arith, k, q, b);
        kept =
            inserted key (select (is_from min_id) (stream_of key m)) m
            ∙ ap (select (is_from min_id)) v.kept
            ∙ j.2
            ∙ drop-drop j.0 v.dropped log;
        rising = v.rising;
        dated = dated_later m _ log t (omega arith) v.dated;
      })
