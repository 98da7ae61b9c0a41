-- ===== src/Render/Init.antt =====
-- internal/render/init.go: the registration of the renderers. The environment, the kind of the writer
-- and the version of Go are arguments.
use copyfail_validation.Base.{ℕ, Bool, Option, some, if◌then◌else◌, ◌≡◌, refl}
use copyfail_validation.Text.{Text, codes, equal}
use copyfail_validation.Errors.{Try, Outcome}
use copyfail_validation.Report.{Time, Report}
use copyfail_validation.Report.Format.{Format, human, json, sarif, prometheus, unknown}
use copyfail_validation.Report.Registry.{
  Renderer, Registry, register, refuse, write_to, renderer_for, renderer_for-put,
}
use copyfail_validation.Render.{Writer}
use copyfail_validation.Render.Human.{render_human}
use copyfail_validation.Render.Document.{render_json}
use copyfail_validation.Render.Sarif.{render_sarif}
use copyfail_validation.Render.Prometheus.{render_prometheus}

module _ {W : Type 0} (quote : Text → Text) (marshal_time : Time → Try Text) (write : Writer W)
    (file_of : W → Option (Try Bool)) (no_color compact go_version : Text) where
  abbrev pub human_renderer : Renderer W
  human_renderer w rep = render_human quote write no_color (file_of w) w rep

  abbrev pub json_renderer : Renderer W
  json_renderer w rep = render_json quote marshal_time compact write w rep

  abbrev pub sarif_renderer : Renderer W
  sarif_renderer w rep = render_sarif quote write w rep

  abbrev pub prometheus_renderer : Renderer W
  prometheus_renderer w rep = render_prometheus write go_version w rep

  -- init
  unfoldable pub init : Registry W → Registry W
  unfolding register
  init m = register prometheus prometheus_renderer (
      register sarif sarif_renderer (register json json_renderer (register human human_renderer m)))

  -- The renderer that the documentation names for a format.
  abbrev pub expected : W → Report → Format → Outcome ℕ × W
  expected w rep human = human_renderer w rep
  expected w rep json = json_renderer w rep
  expected w rep sarif = sarif_renderer w rep
  expected w rep prometheus = prometheus_renderer w rep
  expected w rep (Format.other t) = refuse w (unknown t)

  renderer_for-init :
      (m : Registry W) (k : Text)
      → renderer_for k (init m) ≡ (
          if equal (codes "prometheus") k
          then some prometheus_renderer
          else if equal (codes "sarif") k
          then some sarif_renderer
          else if equal (codes "json") k
          then some json_renderer
          else if equal (codes "human") k
          then some human_renderer
          else renderer_for k m)
  unfolding init register
  renderer_for-init m k =
      rw
        (
          renderer_for-put (codes "prometheus") k prometheus_renderer (
              register sarif sarif_renderer
                (register json json_renderer (register human human_renderer m))),
          renderer_for-put (codes "sarif") k sarif_renderer
              (register json json_renderer (register human human_renderer m)),
          renderer_for-put (codes "json") k json_renderer (register human human_renderer m),
          renderer_for-put (codes "human") k human_renderer m,
        )
        refl

  -- Once the renderers are registered, WriteTo writes each of the four formats with its renderer,
  -- whatever was registered before, and refuses every other value with the writer untouched.
  pub write_to-init :
      (m : Registry W) (rep : Report) (w : W) (f : Format)
      → write_to (init m) rep w f ≡ expected w rep f
  unfolding write_to equal
  write_to-init m rep w human = rw (renderer_for-init m (codes "human")) refl
  write_to-init m rep w json = rw (renderer_for-init m (codes "json")) refl
  write_to-init m rep w sarif = rw (renderer_for-init m (codes "sarif")) refl
  write_to-init m rep w prometheus = rw (renderer_for-init m (codes "prometheus")) refl
  write_to-init m rep w (Format.other t) = refl
