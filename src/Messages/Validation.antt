-- ===== src/Messages/Validation.antt =====
-- internal/messages/messages.go: what the validation of a message lets through.
use go_tangra_notification.Prelude.{
  ◌≤◌, ◌≡◌, refl, ◌∙◌, ap, ◌⊎◌, inl, inr, Bool, true, false, some, List, [], ◌∷◌, String, len,
  arith, Bool-cases, Option-cases, ok, length, contains, not, ◌&&◌, ◌||◌, ◌==◌, ==_iff, ==_self,
  ltb,
}
use go_tangra_notification.Messages.Input.{
  MessageInput, dedup, validate, validate_recipients, default_kind,
}

abbrev pub no_repeats : List String → Bool
no_repeats [] = true
no_repeats (x ∷ xs) = not (contains xs x) && no_repeats xs

contains_same : (xs : List String) (a b : String) → a == b ≡ true → contains xs a ≡ contains xs b
contains_same xs a b h = ap (contains xs) ((==_iff a b).0 h)

-- One round of the loop: the id is left out where it was seen, and put first where it was not.
dedup_inv :
    (seen us l : List String) (u : String)
    → dedup seen (u ∷ us) ≡ some l
    → (u == "" ≡ false)
      × (((contains seen u ≡ true) × (dedup seen us ≡ some l))
          ⊎ ((contains seen u ≡ false)
              × ((r : List String) × (dedup (u ∷ seen) us ≡ some r) × (l ≡ u ∷ r))))
unfolding dedup
dedup_inv seen us l u h = (
  ground (arith, h),
  elim (Bool-cases (contains seen u)) [
    | inl old ↦ inl (old, ground (arith, h, old))
    | inr new ↦ elim (Option-cases (dedup (u ∷ seen) us)) [
      | inl n ↦ absurd (ground (arith, h, new, n))
      | inr (r, n) ↦ inr (new, (r, n, ground (arith, h, new, n)))
    ]
  ],
)

dedup-contains :
    (seen us l : List String) (a : String)
    → dedup seen us ≡ some l
    → contains l a ≡ (contains us a && not (contains seen a))
unfolding dedup
dedup-contains seen [] l a h = ground (arith, h)
dedup-contains seen (u ∷ us) l a h = elim (dedup_inv seen us l u h).1 [
  | inl (old, e) ↦ ground (arith, old, dedup-contains seen us l a e, contains_same seen u a)
  | inr (new, (r, e, q)) ↦
      rw q (ground (arith, new, dedup-contains (u ∷ seen) us r a e, contains_same seen u a))
]

dedup-no_repeats : (seen us l : List String) → dedup seen us ≡ some l → no_repeats l ≡ true
unfolding dedup
dedup-no_repeats seen [] l h = ground (arith, h)
dedup-no_repeats seen (u ∷ us) l h = elim (dedup_inv seen us l u h).1 [
  | inl (old, e) ↦ dedup-no_repeats seen us l e
  | inr (new, (r, e, q)) ↦ rw q (
      ground
        (arith, dedup-no_repeats (u ∷ seen) us r e, dedup-contains (u ∷ seen) us r u e, ==_self u))
]

dedup-no_empty : (seen us l : List String) → dedup seen us ≡ some l → contains us "" ≡ false
unfolding dedup
dedup-no_empty seen [] l h = refl
dedup-no_empty seen (u ∷ us) l h =
    let (some_id, rest) = dedup_inv seen us l u h in
    elim rest [
      | inl (old, e) ↦ ground (arith, some_id, dedup-no_empty seen us l e)
      | inr (new, (r, e, q)) ↦ ground (arith, some_id, dedup-no_empty (u ∷ seen) us r e)
    ]

-- What a message that passes looks like: `v` is kept of the input `i`.
pub record Valid (i v : MessageInput) : Type 0 where
  pub title_length : (1 ≤ len v.title) × (len v.title ≤ 200)
  pub content_length : len v.content ≤ 65536
  pub known_kind : (v.kind == "notification" || v.kind == "private" || v.kind == "group") ≡ true
  pub one_audience : (v.recipients.all && ltb 0 (length v.recipients.users)) ≡ false
  pub each_once : no_repeats v.recipients.users ≡ true
  pub no_empty : contains v.recipients.users "" ≡ false
  pub same_users : (a : String) → contains v.recipients.users a ≡ contains i.recipients.users a

nobody : (us l : List String) → ltb 0 (length us) ≡ false → dedup [] us ≡ some l → l ≡ []
unfolding dedup
nobody [] l h e = ground (arith, e)
nobody (u ∷ us) l h e = absurd (ground (arith, h))

validate_inv :
    (i v : MessageInput)
    → validate i ≡ ok v
    → (l : List String) × (dedup [] i.recipients.users ≡ some l)
      × (v
          ≡ record i { kind = default_kind i.kind; recipients = record i.recipients { users = l } })
unfolding validate validate_recipients
validate_inv i v h = elim (Option-cases (dedup [] i.recipients.users)) [
  | inl n ↦ absurd (ground (arith, h, n))
  | inr (l, n) ↦ (l, n, ground (arith, h, n))
]

-- A message that the validation lets through has a title of 1 to 200 bytes, at most 65536 bytes of
-- content and one of the three types; it is not for all and for listed users at once; and its users
-- are those of the input, each once, none of them empty.
pub validate_lem : (i v : MessageInput) → validate i ≡ ok v → Valid i v
unfolding validate validate_recipients
validate_lem i v h =
    let (l, e, q) = validate_inv i v h in
    rw q (record {
      title_length = (ground (arith, h), ground (arith, h));
      content_length = ground (arith, h);
      known_kind = ground (arith, h);
      one_audience = elim (Bool-cases i.recipients.all) [
        | inr n ↦ rw n refl
        | inl a ↦ rw (nobody i.recipients.users l (ground (arith, h, a)) e, a) refl
      ];
      each_once = dedup-no_repeats [] i.recipients.users l e;
      no_empty =
          rw (dedup-contains [] i.recipients.users l "" e, dedup-no_empty [] i.recipients.users l e)
            refl;
      same_users = λ a. dedup-contains [] i.recipients.users l a e ∙ ground arith;
    })
