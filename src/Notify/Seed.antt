-- ===== src/Notify/Seed.antt =====
-- internal/notify/systemtemplates.go: the built-in templates of the platform's tenant. The wording of
-- each is data of the source, and the list of them an argument.
use go_tangra_notification.Prelude.{
  ℕ, suc, Bool, true, false, none, some, List, [], ◌∷◌, ◌++◌, String, ◌&&◌, if◌then◌else◌, ◌==◌,
  Result, ok, err, Err, is_not_found,
}
use go_tangra_notification.Store.{Template}
use go_tangra_notification.Memstore.Templates.{
  template_by_key, insert_template, set_template_builtin,
}
use go_tangra_notification.World.{World, Event, st, emit, draw_id}

pub record SystemTemplate : Type 0 where
  pub key : String
  pub subject : String
  pub body : String
  pub variables : List String
  pub required : List String
  pub secret : List String

pub record SeedResult : Type 0 where
  pub created : ℕ
  pub refreshed : ℕ
  pub errs : List Err

abbrev same_names : List String → List String → Bool
same_names [] [] = true
same_names (a ∷ xs) (b ∷ ys) = a == b && same_names xs ys
same_names _ _ = false

-- The row has the built-in wording and variables already.
unfoldable pub is_current : SystemTemplate → Template → Bool
is_current t row =
    row.builtin_subject == t.subject
    && row.builtin_body == t.body
    && same_names row.variables t.variables
    && same_names row.required_variables t.required
    && same_names row.secret_variables t.secret

unfoldable pub system_row : String → SystemTemplate → String → Template
system_row tid t id = record {
  id = id;
  tenant_id = tid;
  name = t.key;
  channel_id = none;
  channel_type = "email";
  subject = t.subject;
  body = t.body;
  variables = t.variables;
  is_default = false;
  created_by = none;
  updated_by = none;
  created_at = 0;
  updated_at = 0;
  channel_name = "";
  system_key = some t.key;
  builtin_subject = t.subject;
  builtin_body = t.body;
  required_variables = t.required;
  secret_variables = t.secret;
}

unfoldable pub refreshed_row : SystemTemplate → Template → Template
refreshed_row t row = record row {
  builtin_subject = t.subject;
  builtin_body = t.body;
  variables = t.variables;
  required_variables = t.required;
  secret_variables = t.secret;
}

unfoldable pub seed_event : String → String → Event
seed_event tid id = record {
  kind = "template_created";
  tenant_id = tid;
  actor_kind = "system";
  actor_id = "system_templates";
  subject_kind = "template";
  subject_id = id;
  outcome = "ok";
  reason = "";
}

-- An error is noted and the next key is taken.
abbrev pub count_created :
    String → String → SeedResult → Result (Unit {0}) × World → SeedResult × World
count_created tid id r (ok u, w) =
    (record r { created = suc r.created }, (emit (seed_event tid id) w).1)
count_created tid id r (err e, w) = (record r { errs = r.errs ++ e ∷ [] }, w)

abbrev pub count_refreshed : SeedResult → Result (Unit {0}) × World → SeedResult × World
count_refreshed r (ok u, w) = (record r { refreshed = suc r.refreshed }, w)
count_refreshed r (err e, w) = (record r { errs = r.errs ++ e ∷ [] }, w)

module _ (new_id : ℕ → String) (lower : String → String) where
  abbrev pub add : String → SystemTemplate → SeedResult → World → SeedResult × World
  add tid t r w =
      count_created tid (new_id w.drawn) r
        (st (insert_template lower (system_row tid t (new_id w.drawn))) (draw_id new_id w).1)

  -- One key: none there, an error, or a row.
  unfoldable pub seed_one :
      String → SystemTemplate → SeedResult → Result Template → World → SeedResult × World
  seed_one tid t r (err e) w =
      if is_not_found e then add tid t r w else (record r { errs = r.errs ++ e ∷ [] }, w)
  seed_one tid t r (ok row) w =
      if is_current t row
      then (r, w)
      else count_refreshed r (st (set_template_builtin (refreshed_row t row)) w)

  unfoldable pub seed_all : String → List SystemTemplate → SeedResult → World → SeedResult × World
  seed_all tid [] r w = (r, w)
  seed_all tid (t ∷ ts) r w =
      let next = seed_one tid t r (template_by_key tid t.key w.store) w in
      seed_all tid ts next.0 next.1

  unfoldable pub ensure_system_templates : String → List SystemTemplate → World → SeedResult × World
  ensure_system_templates tid ts w =
      seed_all tid ts (record { created = 0; refreshed = 0; errs = [] }) w
