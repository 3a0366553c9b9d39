-- ===== src/Atlasctl/New/Frame.antt =====
-- What the command of tools/atlasctl/cmd/new.go may change on the disk.
use atlas_idp.Common.{
  ◌≡◌, ◌≢◌, ◌⊎◌, ◌||◌, refl, sym, ◌∙◌, inl, inr, Option, none, some, List, [], ◌∷◌, Bytes, codes,
  ◌>>=◌, ℕ, All, Bool-cases, Option-cases,
}
use atlas_idp.Text.{bytes_eq}
use atlas_idp.Atlasctl.Config.{SeedKey}
use atlas_idp.Atlasctl.Kube.{Outcome-cases, Entries, insert}
use atlas_idp.Atlasctl.Disk.{FilePath, child, Stat-cases, Disk}
use atlas_idp.Atlasctl.Disk.Laws.{DiskLaws}
use atlas_idp.Atlasctl.Gitops.Walk.{
  Frame, Frame-refl, Frame-trans, Frame-cons, mkdir_all-Frame, write_file-Frame,
}
use atlas_idp.Atlasctl.Seed.Command.{agrees}
use atlas_idp.Atlasctl.Template.{
  Vars, Generators, encoded, generate_value, generate_from, generate_seed, secret_seed_env,
}
use atlas_idp.Atlasctl.New.{
  NewFlags, Setting, render_all_templates, write_seed, scaffold, new_workload, vars_of,
}
use atlas_idp.Atlasctl.New.Render.{GivesPlain, render_all_templates-Frame}

some≢none : {A : Type 0} {a : A} → some a ≢ none
some≢none h = cc

module _ (d : Disk) (l : DiskLaws d) (s : Setting) where
  module _ (g : Generators d.World)
      (drawing-keeps : (size : ℕ) (w : d.World) → l.tree (g.random size w).1 ≡ l.tree w) where
    encoded-keeps :
        (encoding : Bytes → Bytes) (size : ℕ) (w : d.World)
        → l.tree (encoded g encoding size w).1 ≡ l.tree w
    unfolding encoded
    encoded-keeps encoding size w = elim (Outcome-cases ((g.random size w).0)) [
      | inl (e, bad) ↦ rw (encoded, ◌>>=◌, bad) (drawing-keeps size w)
      | inr (bytes, good) ↦ rw (encoded, ◌>>=◌, good) (drawing-keeps size w)
    ]

    generate_value-keeps :
        (generator : Bytes) (size : ℕ) (w : d.World)
        → l.tree (generate_value g generator size w).1 ≡ l.tree w
    unfolding generate_value
    generate_value-keeps generator size w =
        elim (Bool-cases (bytes_eq generator (codes "base64"))) [
          | inl base64 ↦ rw (generate_value, base64) (encoded-keeps g.base64 size w)
          | inr other ↦ elim (Bool-cases (bytes_eq generator (codes "hex"))) [
            | inl hex ↦ rw (generate_value, other, hex) (encoded-keeps g.hex size w)
            | inr neither ↦ rw (generate_value, other, neither) refl
          ]
        ]

    generate_from-keeps :
        (keys : List SeedKey) (entries : Entries Bytes) (w : d.World)
        → l.tree (generate_from g keys entries w).1 ≡ l.tree w
    unfolding generate_from
    generate_from-keeps [] entries w = refl
    generate_from-keeps (k ∷ keys) entries w =
        let w' = (generate_value g k.generator k.length w).1 in
        let kept = generate_value-keeps k.generator k.length w in
        elim (Outcome-cases ((generate_value g k.generator k.length w).0)) [
          | inl (e, bad) ↦ rw (generate_from, ◌>>=◌, bad) kept
          | inr (text, good) ↦
              rw (generate_from, ◌>>=◌, good)
                (generate_from-keeps keys (insert k.env_key text entries) w' ∙ kept)
        ]

    write_seed-Frame :
        (base : FilePath) (v : Vars) (w : d.World)
        → Frame base (l.tree w) (l.tree (write_seed d s g base v w).1)
    unfolding write_seed generate_seed child
    write_seed-Frame base v w =
        let w₁ = (generate_from g s.keys [] w).1 in
        let kept = generate_from-keeps s.keys [] w in
        elim (Outcome-cases ((generate_from g s.keys [] w).0)) [
          | inl (e, bad) ↦
              rw (write_seed, generate_seed, ◌>>=◌, bad, kept) (Frame-refl base (l.tree w))
          | inr (secrets, good) ↦
              let dst = child base (codes ".secret-seed") in
              let text = secret_seed_env v.group_uc v.app_uc (s.ranged secrets) in
              let w₂ = (d.write_file dst text w₁).1 in
              let wrote : Frame base (l.tree w) (l.tree w₂) = rw (← kept) (
                Frame-cons base (codes ".secret-seed") (l.tree w₁) (l.tree w₂)
                  (write_file-Frame d l (codes ".secret-seed" ∷ base) text w₁)) in
              elim (Option-cases ((d.write_file dst text w₁).0)) [
                | inr (e, bad) ↦ rw (write_seed, generate_seed, ◌>>=◌, good, bad) wrote
                | inl wrote_it ↦ rw (write_seed, generate_seed, ◌>>=◌, good, wrote_it) wrote
              ]
        ]

    scaffold-Frame :
        (base : FilePath) (v : Vars) (w : d.World)
        → All (λ t. GivesPlain t.path) s.templates
        → Frame base (l.tree w) (l.tree (scaffold d s g base v w).1)
    unfolding scaffold
    scaffold-Frame base v w plains =
        let w₁ = (d.mkdir_all base w).1 in
        let w₂ = (render_all_templates d s base v s.templates w₁).1 in
        let made = mkdir_all-Frame d l base w in
        let rendered =
          Frame-trans base (l.tree w) (l.tree w₁) (l.tree w₂) made
            (render_all_templates-Frame d l s base v s.templates w₁ plains) in
        elim (Option-cases ((d.mkdir_all base w).0)) [
          | inr (e, bad) ↦ rw (scaffold, ◌>>=◌, bad) made
          | inl good ↦ elim (Option-cases ((render_all_templates d s base v s.templates w₁).0)) [
            | inr (e, bad) ↦ rw (scaffold, ◌>>=◌, good, bad) rendered
            | inl all ↦
                rw (scaffold, ◌>>=◌, good, all)
                  (Frame-trans base (l.tree w) (l.tree w₂) (l.tree (write_seed d s g base v w₂).1)
                    rendered (write_seed-Frame base v w₂))
          ]
        ]

    module _ (unclear : Bytes) (flags : NewFlags) (app : Bytes) where
      abbrev pub workload_dir : FilePath
      workload_dir = child (child s.scaffold_dir flags.group) app

      -- What `atlasctl new` ends with, and on which disk.
      abbrev pub created : d.World → Option Bytes × d.World
      created w = new_workload d s g unclear flags app w

      asked-Frame :
          (w : d.World)
          → All (λ t. GivesPlain t.path) s.templates
          → Frame workload_dir (l.tree w) (l.tree (created w).1)
      unfolding new_workload
      asked-Frame w plains =
          let w₁ = (d.stat workload_dir w).1 in
          let still : Frame workload_dir (l.tree w) (l.tree w₁) =
            rw (l.stat_keeps workload_dir w) (Frame-refl workload_dir (l.tree w)) in
          let made : Frame workload_dir (l.tree w)
              (l.tree (scaffold d s g workload_dir (vars_of flags app) w₁).1) =
            rw (← l.stat_keeps workload_dir w)
              (scaffold-Frame workload_dir (vars_of flags app) w₁ plains) in
          elim (Bool-cases (bytes_eq flags.group [])) [
            | inl no_group ↦ rw (new_workload, no_group) (Frame-refl workload_dir (l.tree w))
            | inr group ↦ elim (Bool-cases (bytes_eq flags.repo_url [])) [
              | inl no_repo ↦ rw (new_workload, group, no_repo) (Frame-refl workload_dir (l.tree w))
              | inr repo ↦ elim (Stat-cases ((d.stat workload_dir w).0)) [
                | inl there ↦ rw (new_workload, ◌>>=◌, group, repo, there) still
                | inr (inr strange) ↦ rw (new_workload, ◌>>=◌, group, repo, strange) still
                | inr (inl free) ↦ elim (Bool-cases (flags.skip_confirm || agrees flags.answer)) [
                  | inl agreed ↦ rw (new_workload, ◌>>=◌, group, repo, free, agreed) made
                  | inr refused ↦ rw (new_workload, ◌>>=◌, group, repo, free, refused) still
                ]
              ]
            ]
          ]

      new_workload-refuses :
          (w : d.World)
          → l.tree w workload_dir ≢ none
          → ((created w).0 ≢ none) × (l.tree (created w).1 ≡ l.tree w)
      unfolding new_workload
      new_workload-refuses w taken =
          let kept = l.stat_keeps workload_dir w in
          elim (Bool-cases (bytes_eq flags.group [])) [
            | inl no_group ↦ rw (new_workload, no_group) (some≢none, refl)
            | inr group ↦ elim (Bool-cases (bytes_eq flags.repo_url [])) [
              | inl no_repo ↦ rw (new_workload, group, no_repo) (some≢none, refl)
              | inr repo ↦ elim (Stat-cases ((d.stat workload_dir w).0)) [
                | inl there ↦ rw (new_workload, ◌>>=◌, group, repo, there) (some≢none, kept)
                | inr (inl gone) ↦ absurd (l.stat_there workload_dir w taken gone)
                | inr (inr odd) ↦ rw (new_workload, ◌>>=◌, group, repo, odd) (some≢none, kept)
              ]
            ]
          ]

      -- If the files that the templates give have plain names and drawing random bytes changes no
      -- file, then whatever calls fail: where the directory of the workload is there before,
      -- `atlasctl new` ends with an error and leaves every path as it was, and else only this
      -- directory, what is below it and the directories above it may differ.
      pub new_workload-keeps :
          (w : d.World)
          → All (λ t. GivesPlain t.path) s.templates
          → ((l.tree w workload_dir ≢ none)
              × ((created w).0 ≢ none)
              × (l.tree (created w).1 ≡ l.tree w))
            ⊎ ((l.tree w workload_dir ≡ none)
                × Frame workload_dir (l.tree w) (l.tree (created w).1))
      new_workload-keeps w plains = elim (Option-cases (l.tree w workload_dir)) [
        | inl free ↦ inr (free, asked-Frame w plains)
        | inr (node, taken) ↦
            let there : l.tree w workload_dir ≢ none = λ gone. some≢none (sym taken ∙ gone) in
            let (fails, same) = new_workload-refuses w there in inl (there, fails, same)
      ]
