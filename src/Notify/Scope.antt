-- ===== src/Notify/Scope.antt =====
-- internal/notify/send.go, internal/store/lists.go: who sees which entries of the log.
use go_tangra_notification.Prelude.{
  ℕ, ◌+◌, ◌-◌, ◌≤◌, ◌≡◌, Bool, true, false, Option, List, String, ◌&&◌, if◌then◌else◌, ◌==◌, nat_eq,
  all, select, sort_by, map, values, Bool-cases, Result-cases, inl, inr, arith, ok, subst, all-map,
  all-select, all-sort_by, all-take,
}
use go_tangra_notification.Store.{LogRow, LogFilter}
use go_tangra_notification.Memstore.{Store, failing_read-ok}
use go_tangra_notification.Memstore.Logs.{log_selected, log_page}
use go_tangra_notification.Memstore.Messages.{newer, capped}
use go_tangra_notification.Authz.Decide.{Subjects, actor_id}
use go_tangra_notification.Notify.Deliver.{LogView, log_view}
use go_tangra_notification.Notify.Log.{window, log_filter, list_log, page_size, minute, max_span}

-- The window of a listing is never wider than 90 days and the minute of slack, whatever the caller
-- asks for: where it is accepted, its end lies at most so far after its start.
pub window-bounded :
    (start until now : ℕ) (a b : ℕ) → window start until now ≡ ok (a, b) → b - a ≤ max_span + minute
unfolding window
window-bounded start until now a b h = ground arith

-- The row is of the caller's tenant and of the caller's own sends.
abbrev pub is_own : Subjects → LogRow → Bool
is_own s l = l.tenant_id == s.tenant_id && l.sender_id == actor_id s

page_all :
    (p q : LogRow → Bool) (less : LogRow → LogRow → Bool) (g : LogRow → LogRow) (n : ℕ)
    (xs : List LogRow)
    → ((x : LogRow) → q x ≡ true → p (g x) ≡ true)
    → all p (capped n (sort_by less (map g (select q xs)))) ≡ true
page_all p q less g n xs h =
    let ys = sort_by less (map g (select q xs)) in
    let a : all p ys ≡ true = ground (
      arith,
      all-sort_by p less (map g (select q xs)),
      all-map p g (select q xs),
      all-select (λ x. p (g x)) q xs h,
    ) in
    ground (arith, a, all-take p n ys a)

ok_inj : {A : Type 0} {a b : A} → ok a ≡ ok b → a ≡ b
ok_inj h = cc

module _ (lower : String → String) (format : ℕ → String) (parse : String → Option ℕ) where
  selected_own :
      (s : Subjects) (until : ℕ) (f : LogFilter) (l : LogRow)
      → f.sender_id ≡ actor_id s
      → f.sender_id == "" ≡ false
      → log_selected lower s.tenant_id until f l ≡ true
      → is_own s l ≡ true
  unfolding log_selected
  selected_own s until f l e n h = ground (arith, e, n, h)

  log_page_own :
      (s : Subjects) (f : LogFilter) (m : Store) (rows : List LogRow)
      → f.sender_id ≡ actor_id s
      → f.sender_id == "" ≡ false
      → log_page lower s.tenant_id f m ≡ ok rows
      → all (is_own s) rows ≡ true
  unfolding log_page
  log_page_own s f m rows e n h =
      let until = if nat_eq f.end 0 then m.now + 60000000000 else f.end in
      subst (λ z. all (is_own s) z ≡ true) (ok_inj (failing_read-ok "LogPage" _ m h))
        (page_all (is_own s) (log_selected lower s.tenant_id until f)
          (λ (a b : LogRow). newer a.created_at a.id b.created_at b.id)
          (λ (l : LogRow). record l { rendered_body = "" }) f.limit (values m.logs)
          (λ l k. selected_own s until f l e n k))

  log_filter_own :
      (s : Subjects) (f g : LogFilter) (now : ℕ)
      → log_filter s f false now ≡ ok g
      → g.sender_id ≡ actor_id s
  unfolding log_filter
  log_filter_own s f g now h = ground (arith, h)

  -- A listing of the log for a caller who may not see every sender holds the caller's own sends in
  -- the caller's tenant only: each entry that it returns has the tenant and the sender of the caller.
  pub list_log_own :
      (s : Subjects) (f : LogFilter) (now : ℕ) (m : Store) (views : List LogView) (next : String)
      → list_log lower format parse s f false now m ≡ ok (views, next)
      → all (λ (v : LogView). is_own s v.row) views ≡ true
  unfolding list_log log_view
  list_log_own s f now m views next h = elim (Result-cases (log_filter s f false now)) [
    | inr (e, n) ↦ ground (arith, n, h)
    | inl (g, n) ↦ elim (Bool-cases (g.sender_id == "")) [
      | inl z ↦ ground (arith, n, z, h)
      | inr z ↦
          elim (Result-cases
            (log_page lower s.tenant_id (record g { limit = page_size g.limit }) m)) [
              | inr (e, k) ↦ ground (arith, n, z, k, h)
              | inl (rows, k) ↦ ground (
                arith,
                n,
                z,
                k,
                h,
                all-map (λ (v : LogView). is_own s v.row) log_view rows,
                log_page_own s (record g { limit = page_size g.limit }) m rows
                    (log_filter_own s f g now n) z k,
              )
            ]
    ]
  ]
