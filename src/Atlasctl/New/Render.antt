-- ===== src/Atlasctl/New/Render.antt =====
-- What the rendering of the templates in tools/atlasctl/cmd/new.go may change on the disk.
use atlas_idp.Common.{
  ◌≡◌, refl, inl, inr, none, some, List, [], ◌∷◌, ◌++◌, Bytes, codes, ◌>>=◌, All, Bool-cases,
  Option-cases,
}
use atlas_idp.Text.{has_suffix, trim_suffix}
use atlas_idp.Atlasctl.Kube.{Outcome-cases}
use atlas_idp.Atlasctl.Disk.{FilePath, child, Disk}
use atlas_idp.Atlasctl.Disk.Paths.{IsPlain, child-plain}
use atlas_idp.Atlasctl.Disk.Laws.{Tree, DiskLaws}
use atlas_idp.Atlasctl.Gitops.Walk.{
  Frame, Frame-refl, Frame-trans, Frame-cons, mkdir_all-Frame, write_file-Frame,
}
use atlas_idp.Atlasctl.Template.{Vars, render}
use atlas_idp.Atlasctl.New.{
  TemplateFile, Setting, target_of, write_one, render_one, render_all_templates,
}

-- A file that a template gives is named by a plain name.
abbrev pub GivesPlain : FilePath → Type 0
GivesPlain [] = ⊥
GivesPlain (name ∷ dir) = IsPlain (trim_suffix name (codes ".tmpl"))

-- what changes only what is below a directory changes only that
Frame-below : (base rel : FilePath) (a b : Tree) → Frame (rel ++ base) a b → Frame base a b
Frame-below base [] a b f = f
Frame-below base (x ∷ rel) a b f = Frame-below base rel a b (Frame-cons (rel ++ base) x a b f)

target_of-placed :
    (base path dst : FilePath)
    → GivesPlain path
    → target_of base path ≡ some dst
    → (name : Bytes) × (rel : FilePath) × (dst ≡ name ∷ (rel ++ base))
unfolding target_of
target_of-placed base [] dst bad _ = absurd bad
target_of-placed base (name ∷ dir) dst plain placed =
    let short = trim_suffix name (codes ".tmpl") in
    let here = child-plain (dir ++ base) short plain in
    elim (Bool-cases (has_suffix name (codes ".tmpl"))) [
      | inl fits ↦
          let both : some (child (dir ++ base) short) ≡ some dst =
            rw (← placed) (rw (target_of, fits) refl) in
          (short, dir, cc)
      | inr not_it ↦ let both : none ≡ some dst = rw (← placed) (rw (target_of, not_it) refl) in cc
    ]

module _ (d : Disk) (l : DiskLaws d) (s : Setting) where
  write_one-Frame :
      (base rel : FilePath) (name : Bytes) (v : Vars) (t : TemplateFile) (w : d.World)
      → Frame base (l.tree w) (l.tree (write_one d s v t (name ∷ (rel ++ base)) w).1)
  unfolding write_one
  write_one-Frame base rel name v t w =
      let dst = name ∷ (rel ++ base) in
      let w₁ = (d.mkdir_all (rel ++ base) w).1 in
      let made = Frame-below base rel _ _ (mkdir_all-Frame d l (rel ++ base) w) in
      elim (Option-cases ((d.mkdir_all (rel ++ base) w).0)) [
        | inr (e, bad) ↦ rw (write_one, ◌>>=◌, bad) made
        | inl good ↦ elim (Outcome-cases t.content) [
          | inl (e, unread) ↦ rw (write_one, ◌>>=◌, good, unread) made
          | inr (content, readable) ↦
              let text = render s.ranged content v s.defaults_config in
              let w₂ = (d.write_file dst text w₁).1 in
              let wrote : Frame base (l.tree w) (l.tree w₂) =
                Frame-trans base (l.tree w) (l.tree w₁) (l.tree w₂) made
                  (Frame-below base (name ∷ rel) _ _ (write_file-Frame d l dst text w₁)) in
              elim (Option-cases ((d.write_file dst text w₁).0)) [
                | inr (e, bad) ↦ rw (write_one, ◌>>=◌, good, readable, bad) wrote
                | inl wrote_it ↦ rw (write_one, ◌>>=◌, good, readable, wrote_it) wrote
              ]
        ]
      ]

  render_one-Frame :
      (base : FilePath) (v : Vars) (t : TemplateFile) (w : d.World)
      → GivesPlain t.path
      → Frame base (l.tree w) (l.tree (render_one d s base v t w).1)
  unfolding render_one
  render_one-Frame base v t w plain = elim (Option-cases (target_of base t.path)) [
    | inl skipped ↦ rw (render_one, skipped) (Frame-refl base (l.tree w))
    | inr (dst, placed) ↦
        let (name, rel, at) = target_of-placed base t.path dst plain placed in
        rw (render_one, placed, at) (write_one-Frame base rel name v t w)
  ]

  pub render_all_templates-Frame :
      (base : FilePath) (v : Vars) (templates : List TemplateFile) (w : d.World)
      → All (λ t. GivesPlain t.path) templates
      → Frame base (l.tree w) (l.tree (render_all_templates d s base v templates w).1)
  unfolding render_all_templates
  render_all_templates-Frame base v [] w _ = Frame-refl base (l.tree w)
  render_all_templates-Frame base v (t ∷ templates) w (plain, plains) =
      let w' = (render_one d s base v t w).1 in
      let first = render_one-Frame base v t w plain in
      elim (Option-cases ((render_one d s base v t w).0)) [
        | inr (e, bad) ↦ rw (render_all_templates, ◌>>=◌, bad) first
        | inl good ↦
            rw (render_all_templates, ◌>>=◌, good)
              (Frame-trans base (l.tree w) (l.tree w')
                (l.tree (render_all_templates d s base v templates w').1) first
                (render_all_templates-Frame base v templates w' plains))
      ]
