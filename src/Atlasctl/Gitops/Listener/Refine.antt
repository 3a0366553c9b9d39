-- ===== src/Atlasctl/Gitops/Listener/Refine.antt =====
-- `ApplyGatewayListener` on the disk does to the content of the gateway file what the functions of
-- Gateway do, and changes no other path.
use atlas_idp.Common.{
  ◌≡◌, ◌≢◌, sym, ap, ◌∙◌, true, false, Option, some, Bytes, ◌>>=◌, if◌then◌else◌, arith, Bool-cases,
  Option-cases, inl, inr,
}
use atlas_idp.Atlasctl.Gateway.{
  ListenerData, GatewayListenerChange, Applied, has_listener, append_listener, remove_listener,
  apply_gateway_listener,
}
use atlas_idp.Atlasctl.Kube.{Outcome, fine, fault, Outcome-cases}
use atlas_idp.Atlasctl.Disk.{FilePath, Disk}
use atlas_idp.Atlasctl.Disk.Laws.{Tree, Node, file, DiskLaws}
use atlas_idp.Atlasctl.Gitops.Listener.{
  has_listener_in_file, append_listener_to_file, remove_listener_from_file, listener_data,
  add_listener, drop_listener, apply_listener,
}

module _ (d : Disk) (l : DiskLaws d) where
  read_back :
      (path : FilePath) (content text : Bytes) (w : d.World)
      → l.tree w path ≡ some (file content)
      → (d.read_file path w).0 ≡ fine text
      → text ≡ content
  read_back path content text w here h =
      let same : ◌≡◌ {A = Option Node} (some (file text)) (some (file content)) =
        sym (l.read_file_gives path w text h) ∙ here in
      cc

  fault≢fine : {A : Type 0} {e : Bytes} {a : A} → ◌≢◌ {A = Outcome A} (fault e) (fine a)
  fault≢fine h = cc

  fine-inj : {A : Type 0} {a b : A} → ◌≡◌ {A = Outcome A} (fine a) (fine b) → b ≡ a
  fine-inj h = cc

  -- adding where the file could be read the first time
  add_listener-refines :
      (path : FilePath) (change : GatewayListenerChange) (content : Bytes) (r : Applied)
      (w : d.World)
      → change.add ≡ true
      → (d.read_file path w).0 ≡ fine content
      → (add_listener d path change w).0 ≡ fine r
      → let after = apply_gateway_listener content change in
        (r ≡ after.0) × (l.tree (add_listener d path change w).1 path ≡ some (file after.1))
  unfolding add_listener has_listener_in_file append_listener_to_file apply_gateway_listener
  add_listener-refines path change content r w adds read h =
      let w₁ = (d.read_file path w).1 in
      let w₂ = (d.read_file path w₁).1 in
      let here = l.read_file_gives path w content read in
      let here₁ : l.tree w₁ path ≡ some (file content) = rw (l.read_file_keeps path w) here in
      let text = append_listener content (listener_data d change) in
      elim (Bool-cases (has_listener content change.app)) [
        | inl there ↦
            rw (add_listener, has_listener_in_file, ◌>>=◌, read, there, adds)
              (fine-inj (rw (add_listener, has_listener_in_file, ◌>>=◌, read, there) at h), here₁)
        | inr absent ↦ elim (Outcome-cases ((d.read_file path w₁).0)) [
          | inl (e, bad) ↦ absurd (
              fault≢fine (
                rw
                  (
                    add_listener, has_listener_in_file, append_listener_to_file, ◌>>=◌, read,
                    absent, bad,
                  )
                  at h))
          | inr (again, read') ↦
              let read₁ : (d.read_file path w₁).0 ≡ fine content =
                read' ∙ ap fine (read_back path content again w₁ here₁ read') in
              elim (Option-cases ((d.write_file path text w₂).0)) [
                | inr (e, bad) ↦ absurd (
                    fault≢fine (
                      rw
                        (
                          add_listener, has_listener_in_file, append_listener_to_file, ◌>>=◌, read,
                          absent, read₁, bad,
                        )
                        at h))
                | inl fit ↦
                    rw
                      (
                        add_listener, has_listener_in_file, append_listener_to_file, ◌>>=◌, read,
                        absent, read₁, fit, adds,
                      )
                      (
                        fine-inj (
                            rw
                              (
                                add_listener, has_listener_in_file, append_listener_to_file, ◌>>=◌,
                                read, absent, read₁, fit,
                              )
                              at h),
                        l.write_file_done path text w₂ fit,
                      )
              ]
        ]
      ]

  drop_listener-refines :
      (path : FilePath) (change : GatewayListenerChange) (content : Bytes) (r : Applied)
      (w : d.World)
      → change.add ≡ false
      → (d.read_file path w).0 ≡ fine content
      → (drop_listener d path change w).0 ≡ fine r
      → let after = apply_gateway_listener content change in
        (r ≡ after.0) × (l.tree (drop_listener d path change w).1 path ≡ some (file after.1))
  unfolding drop_listener remove_listener_from_file apply_gateway_listener
  drop_listener-refines path change content r w drops read h =
      let w₁ = (d.read_file path w).1 in
      let here = l.read_file_gives path w content read in
      let here₁ : l.tree w₁ path ≡ some (file content) = rw (l.read_file_keeps path w) here in
      elim (Option-cases (remove_listener content change.app)) [
        | inl absent ↦
            rw (drop_listener, remove_listener_from_file, ◌>>=◌, read, absent, drops)
              (
                fine-inj (rw (drop_listener, remove_listener_from_file, ◌>>=◌, read, absent) at h),
                here₁,
              )
        | inr (text, there) ↦ elim (Option-cases ((d.write_file path text w₁).0)) [
          | inr (e, bad) ↦ absurd (
              fault≢fine
                (rw (drop_listener, remove_listener_from_file, ◌>>=◌, read, there, bad) at h))
          | inl fit ↦
              rw (drop_listener, remove_listener_from_file, ◌>>=◌, read, there, fit, drops)
                (
                  fine-inj
                      (rw (drop_listener, remove_listener_from_file, ◌>>=◌, read, there, fit) at h),
                  l.write_file_done path text w₁ fit,
                )
        ]
      ]

  apply_listener-adds :
      (path : FilePath) (change : GatewayListenerChange) (w : d.World)
      → change.add ≡ true
      → apply_listener d path change w ≡ add_listener d path change w
  unfolding apply_listener
  apply_listener-adds path change w h =
      ap (λ b. (if b then add_listener d path change else drop_listener d path change) w) h

  apply_listener-drops :
      (path : FilePath) (change : GatewayListenerChange) (w : d.World)
      → change.add ≡ false
      → apply_listener d path change w ≡ drop_listener d path change w
  unfolding apply_listener
  apply_listener-drops path change w h =
      ap (λ b. (if b then add_listener d path change else drop_listener d path change) w) h

  -- If `ApplyGatewayListener` can read the gateway file and reports no error, it reports and leaves
  -- in the file what the account of it on the content says, for adding and for removing.
  pub apply_listener-refines :
      (path : FilePath) (change : GatewayListenerChange) (content : Bytes) (r : Applied)
      (w : d.World)
      → (d.read_file path w).0 ≡ fine content
      → (apply_listener d path change w).0 ≡ fine r
      → let after = apply_gateway_listener content change in
        (r ≡ after.0) × (l.tree (apply_listener d path change w).1 path ≡ some (file after.1))
  apply_listener-refines path change content r w read h = elim (Bool-cases change.add) [
    | inl adds ↦
        let same = apply_listener-adds path change w adds in
        rw same (add_listener-refines path change content r w adds read (rw same at h))
    | inr drops ↦
        let same = apply_listener-drops path change w drops in
        rw same (drop_listener-refines path change content r w drops read (rw same at h))
  ]

  append-frame :
      (path q : FilePath) (listener : ListenerData) (w : d.World)
      → q ≢ path
      → l.tree (append_listener_to_file d path listener w).1 q ≡ l.tree w q
  unfolding append_listener_to_file
  append-frame path q listener w ne =
      let w₁ = (d.read_file path w).1 in
      let kept : l.tree w₁ q ≡ l.tree w q = ap (λ (t : Tree). t q) (l.read_file_keeps path w) in
      elim (Outcome-cases ((d.read_file path w).0)) [
        | inl (e, bad) ↦ rw (append_listener_to_file, ◌>>=◌, bad) kept
        | inr (content, good) ↦
            rw (append_listener_to_file, ◌>>=◌, good)
              (l.write_file_frame path q (append_listener content listener) w₁ ne ∙ kept)
      ]

  add_listener-frame :
      (path q : FilePath) (change : GatewayListenerChange) (w : d.World)
      → q ≢ path
      → l.tree (add_listener d path change w).1 q ≡ l.tree w q
  unfolding add_listener has_listener_in_file
  add_listener-frame path q change w ne =
      let w₁ = (d.read_file path w).1 in
      let kept : l.tree w₁ q ≡ l.tree w q = ap (λ (t : Tree). t q) (l.read_file_keeps path w) in
      let appended = append-frame path q (listener_data d change) w₁ ne in
      ground (arith, kept, appended)

  drop_listener-frame :
      (path q : FilePath) (change : GatewayListenerChange) (w : d.World)
      → q ≢ path
      → l.tree (drop_listener d path change w).1 q ≡ l.tree w q
  unfolding drop_listener remove_listener_from_file
  drop_listener-frame path q change w ne =
      let w₁ = (d.read_file path w).1 in
      let kept : l.tree w₁ q ≡ l.tree w q = ap (λ (t : Tree). t q) (l.read_file_keeps path w) in
      elim (Outcome-cases ((d.read_file path w).0)) [
        | inl (e, bad) ↦ rw (drop_listener, remove_listener_from_file, ◌>>=◌, bad) kept
        | inr (content, good) ↦ elim (Option-cases (remove_listener content change.app)) [
          | inl absent ↦ rw (drop_listener, remove_listener_from_file, ◌>>=◌, good, absent) kept
          | inr (text, there) ↦
              let wrote = l.write_file_frame path q text w₁ ne ∙ kept in
              elim (Option-cases ((d.write_file path text w₁).0)) [
                | inl fit ↦
                    rw (drop_listener, remove_listener_from_file, ◌>>=◌, good, there, fit) wrote
                | inr (e, bad) ↦
                    rw (drop_listener, remove_listener_from_file, ◌>>=◌, good, there, bad) wrote
              ]
        ]
      ]

  -- no other path changes
  pub apply_listener-frame :
      (path q : FilePath) (change : GatewayListenerChange) (w : d.World)
      → q ≢ path
      → l.tree (apply_listener d path change w).1 q ≡ l.tree w q
  apply_listener-frame path q change w ne = elim (Bool-cases change.add) [
    | inl adds ↦ rw (apply_listener-adds path change w adds) (add_listener-frame path q change w ne)
    | inr drops ↦
        rw (apply_listener-drops path change w drops) (drop_listener-frame path q change w ne)
  ]
