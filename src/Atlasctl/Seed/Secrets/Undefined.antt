-- ===== src/Atlasctl/Seed/Secrets/Undefined.antt =====
-- `WriteVault` of tools/atlasctl/pkg/seed/seed.go where the mapping names a variable that
-- .secret-seed does not define.
use atlas_idp.Common.{
  ◌≡◌, refl, inl, inr, none, some, List, [], ◌∷◌, ◌++◌, Bytes, codes, if◌then◌else◌, Option-cases,
}
use atlas_idp.Atlasctl.Kube.{
  Outcome, fine, fault, Outcome-cases, Machine, Entries, find, insert, wrapped,
}
use atlas_idp.Atlasctl.Seed.{Params, MappingEntry}
use atlas_idp.Atlasctl.Seed.Secrets.{by_path, write_entries}

by_path-undefined :
    (decode : Bytes → Outcome Bytes) (env : Entries Bytes) (before : List MappingEntry)
    (e : MappingEntry) (behind : List MappingEntry) (acc : Entries (Entries Bytes))
    → find e.env_var env ≡ none
    → (why : Bytes) × (by_path decode env (before ++ e ∷ behind) acc ≡ fault why)
unfolding by_path
by_path-undefined decode env [] e behind acc gone =
    (codes "mapping references undefined env var: " ++ e.env_var, rw (gone, by_path) refl)
by_path-undefined decode env (b ∷ before) e behind acc gone =
    elim (Option-cases (find b.env_var env)) [
      | inl none_b ↦
          (codes "mapping references undefined env var: " ++ b.env_var, rw (none_b, by_path) refl)
      | inr (value, known) ↦
          elim (Outcome-cases (if b.decode_b64 then decode value else fine value)) [
            | inl (why, bad) ↦
                (codes "base64 decode " ++ wrapped b.env_var why, rw (known, bad, by_path) refl)
            | inr (plain, good) ↦
                let (why, same) =
                  by_path-undefined decode env before e behind
                    (insert b.vault_path
                      (insert b.key plain
                        (elim (find b.vault_path acc) [ none ↦ [] | some kv ↦ kv ]))
                      acc)
                    gone in
                (why, rw (known, good, by_path) same)
          ]
    ]

-- If any entry of the mapping names a variable that .secret-seed does not define, `WriteVault` with
-- that mapping ends with an error and writes nothing, to no path.
pub write_entries-undefined :
    (m : Machine) (p : Params) (redis_pass : Bytes) (before behind : List MappingEntry)
    (e : MappingEntry) (w : m.World)
    → find e.env_var p.raw_env ≡ none
    → (why : Bytes) × (write_entries m p redis_pass (before ++ e ∷ behind) w ≡ (some why, w))
unfolding write_entries
write_entries-undefined m p redis_pass [] behind e w gone =
    let (why, same) = by_path-undefined m.base64_decode_string p.raw_env [] e behind [] gone in
    (why, rw (write_entries, same) refl)
write_entries-undefined m p redis_pass (b ∷ before) behind e w gone =
    let (why, same) =
      by_path-undefined m.base64_decode_string p.raw_env (b ∷ before) e behind [] gone in
    (why, rw (write_entries, same) refl)
