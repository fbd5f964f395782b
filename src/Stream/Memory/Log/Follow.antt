-- ===== src/Stream/Memory/Log/Follow.antt =====
-- internal/stream/client.go: what a reader that follows the stream reads.
use go_tangra_notification.Prelude.{
  ℕ, zero, suc, ◌-◌, ◌≤◌, ◌<◌, true, false, List, [], ◌∷◌, ◌++◌, String, ltb, ◌==◌, ==_iff, length,
  drop, take, select, none, ◌≡◌, refl, arith, cut_at, Bool-cases, inl, inr, ap, ◌∙◌, sym, subst,
  lookup, ok,
}
use go_tangra_notification.Stream.Ids.{less, id_of_ms, parse_id}
use go_tangra_notification.Stream.Ids.RoundTrip.{parse_id-id_of_ms}
use go_tangra_notification.Stream.Memory.{
  Memory, Entry, xrange, stream_of, entries_after, entries_newer, is_newer, if_up, new_memory,
}
use go_tangra_notification.Stream.Memory.Log.{LogCall, run_log, log_after, rises}
use go_tangra_notification.Stream.Memory.Log.Order.{newer_than, newer_all, all_drop}
use go_tangra_notification.Stream.Memory.Log.Kept.{IsLog, IsDated, AllDated}
use go_tangra_notification.Stream.Memory.Log.Requests.{in_time, run_log-IsLog}

module _ (e : Entry) (ys : List Entry) (named : e.id == "" ≡ false) where
  -- What is left of a log after its first `k` entries holds, entries_newer than `e`, what is left after `e`.
  newer_left :
      (k : ℕ) (xs : List Entry)
      → rises (xs ++ (e ∷ ys)) ≡ true
      → select (is_newer e.id) (drop k (xs ++ (e ∷ ys))) ≡ drop (k - suc (length xs)) ys
  unfolding rises
  newer_left zero xs h =
      newer_than e ys named xs h
      ∙ (let z : 0 ≡ 0 - suc (length xs) = omega arith in ap (λ n. drop n ys) z)
  newer_left (suc k) [] h =
      newer_all e ys named (drop k ys) (all_drop (λ y. less e.id y.id) k ys (ground (arith, h)))
      ∙ (let z : k ≡ suc k - 1 = omega arith in ap (λ n. drop n ys) z)
  newer_left (suc k) (x ∷ xs) h =
      newer_left k xs (ground (arith, h))
      ∙ (let z : k - suc (length xs) ≡ suc k - suc (suc (length xs)) = omega arith in
          ap (λ n. drop n ys) z)

-- Ids are not empty, since they are read back.
dated_named : (m : Memory) (e : Entry) → IsDated m e → e.id == "" ≡ false
unfolding parse_id cut_at
dated_named m e d = elim (Bool-cases (e.id == "")) [
  | inr n ↦ n
  | inl n ↦
      let r = parse_id-id_of_ms d.ms d.seq d.ms_small d.seq_small in
      let q = (==_iff e.id "").0 n in
      let z : "" ≡ id_of_ms d.ms d.seq = sym q ∙ d.made in
      let f : (parse_id "").good ≡ true =
        subst (λ t. (parse_id t).good ≡ true) (sym z) (rw r refl) in
      cc
]

member-IsDated :
    (m : Memory) (xs : List Entry) (e : Entry) (ys : List Entry)
    → AllDated m (xs ++ (e ∷ ys))
    → IsDated m e
member-IsDated m [] e ys (d, h) = d
member-IsDated m (x ∷ xs) e ys (d, h) = member-IsDated m xs e ys h

range_up :
    (key i : String) (n : ℕ) (m : Memory)
    → m.down ≡ none
    → (xrange key i (suc n) m).0 ≡ ok (take (suc n) (select (is_newer i) (stream_of key m)))
unfolding xrange entries_after entries_newer
range_up key i n m d =
    let z : ltb 0 (suc n) ≡ true = ground arith in
    ap (λ x. (if_up x (λ m. (ok (entries_after i (suc n) (stream_of key m)), m)) m).0) d ∙ rw z refl

module _ (key : String) (now : ℕ) (cs : List LogCall) (timely : in_time now cs ≡ true)
    (few : length cs < 9223372036854775808) where
  abbrev pub server : Memory
  server = run_log cs (new_memory now)

  abbrev pub whole_log : List Entry
  whole_log = log_after key cs (new_memory now) []

  server-IsLog : IsLog key server whole_log
  unfolding stream_of lookup rises
  server-IsLog =
      run_log-IsLog key cs (new_memory now) []
        (record { dropped = 0; within = omega arith; kept = refl; rising = refl; dated = tt })
        timely (let f = few in omega (arith, f))

  -- The stream refines the log of all entries ever added to it: after any requests, of all streams,
  -- under a clock that does not go back (and stays below 2^63 ms, as the number of requests does), it
  -- is the log less some beginning, and the ids of the log rise strictly.
  pub stream_of-drop :
      ((k : ℕ) × (k ≤ length whole_log) × (stream_of key server ≡ drop k whole_log))
      × (rises whole_log ≡ true)
  stream_of-drop = let v = server-IsLog in ((v.dropped, v.within, v.kept), v.rising)

  -- A reader that follows the stream misses nothing that is kept: after any such requests, with the
  -- server up, a range of up to `suc n` entries after an entry of the log is the entries that come
  -- after it in the log, less those that have been dropped, in order.
  pub xrange_follows :
      (xs : List Entry) (e : Entry) (ys : List Entry) (n : ℕ)
      → whole_log ≡ xs ++ (e ∷ ys)
      → server.down ≡ none
      → (k : ℕ) × (stream_of key server ≡ drop k whole_log)
        × ((xrange key e.id (suc n) server).0 ≡ ok (take (suc n) (drop (k - suc (length xs)) ys)))
  unfolding xrange entries_after entries_newer
  xrange_follows xs e ys n split up =
      let v = server-IsLog in
      let d = member-IsDated server xs e ys (subst (AllDated server) split v.dated) in
      let r : rises (xs ++ (e ∷ ys)) ≡ true = subst (λ z. rises z ≡ true) split v.rising in
      let k = newer_left e ys (dated_named server e d) v.dropped xs r in
      let s : stream_of key server ≡ drop v.dropped (xs ++ (e ∷ ys)) =
        v.kept ∙ ap (drop v.dropped) split in
      (
        v.dropped,
        v.kept,
        range_up key e.id n server up
            ∙ ap (λ z. ok (take (suc n) z)) (ap (select (is_newer e.id)) s ∙ k),
      )
