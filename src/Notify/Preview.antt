-- ===== src/Notify/Preview.antt =====
-- internal/notify/templates.go, internal/render/render.go: the preview of a template.
use go_tangra_notification.Prelude.{
  ℕ, Bool, Option, none, some, List, [], ◌∷◌, String, ◌&&◌, not, if◌then◌else◌, ◌==◌, ltb, length,
  Table, insert, Result, invalid, pure, ensure, map_err, bind_result, ◌>>=◌, ◌>>◌,
}
use go_tangra_notification.Memstore.Grants.{get_template}
use go_tangra_notification.World.{Act, ask, emit}
use go_tangra_notification.Authz.Decide.{Subjects}
use go_tangra_notification.Authz.Check.{require}
use go_tangra_notification.Notify.Render.{
  Engine, Output, parse, render, validate_refs, kind_for, has_value,
}
use go_tangra_notification.Notify.Templates.{listed, template_event, validation_error}

pub record PreviewInput : Type 0 where
  pub template_id : String
  pub channel_type : String
  pub subject : String
  pub body : String
  pub variables : Option (List String)
  pub values : Table String

-- The declared variables without a value render empty.
unfoldable pub with_empty : List String → Table String → Table String
with_empty [] t = t
with_empty (v ∷ vs) t = with_empty vs (if has_value t v then t else insert v "" t)

module _ (e : Engine) where
  unfoldable pub render_preview :
      String → String → Bool → List String → Table String → Result Output
  render_preview subject body html declared values =
      bind_result (parse e subject body html)
        (λ c. bind_result (validate_refs c declared) (λ _. render c values))

  abbrev or_saved : Option (List String) → List String → Option (List String)
  or_saved none saved = some saved
  or_saved (some l) saved = some l

  -- The request with the saved template's parts, and whether the body is HTML.
  unfoldable pub saved_parts : Subjects → PreviewInput → ℕ → Act (PreviewInput × Bool)
  saved_parts s i now = do
    d ← require s "template" i.template_id "read" now
    row ← ask (get_template s.tenant_id i.template_id)
    let plain = i.subject == "" && i.body == ""
    pure (
      record i {
        subject = if plain then row.subject else i.subject;
        body = if plain then row.body else i.body;
        variables = or_saved i.variables row.variables;
      },
      kind_for row.channel_type,
    )

  unfoldable pub preview : Subjects → PreviewInput → ℕ → Act Output
  preview s i now = do
    r ← if i.template_id == "" then pure (i, kind_for i.channel_type) else saved_parts s i now
    let names = listed r.0.variables
    ensure (not (ltb 50 (length names))) (invalid "at most 50 variables" "variables")
    out ← ask (λ _.
        map_err validation_error
          (render_preview r.0.subject r.0.body r.1 names (with_empty names r.0.values)))
    emit (template_event "template_previewed" s i.template_id)
    pure out
